-- ===== src/System.antt =====
-- What the cluster actors use of the operating system: processes, files, sockets and clocks. They
-- are parameters, since their code is not here: the record `Os`. Command lines, paths, addresses
-- and the texts that programs print are data.
pub mod Command
pub mod Os
