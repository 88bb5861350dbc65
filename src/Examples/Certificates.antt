-- ===== src/Examples/Certificates.antt =====
-- A file system that numbers its files, and a certificate that is its text.
use e2etest_rs.Prelude.{
  ℕ, suc, ◌≡◌, refl, false, Option, none, some, List, [], ◌∷◌, arith, if◌then◌else◌, ltb, ◌==◌,
}
use e2etest_rs.Prelude.Text.{Text, codes, text_eq}
use e2etest_rs.System.Command.{Ipv4Addr}
use e2etest_rs.Runner.Runtime.{Yields, yields}
use e2etest_rs.Tls.{Pki, new_state}
use e2etest_rs.Tls.Files.{IsFiling, Serves, new_state-Serves}

-- The files are named by the numbers below `next`.
record Disk : Type 0 where
  next : ℕ
  texts : ℕ → Text
  modes : Text → ℕ

abbrev content_of : Disk → Text → Option Text
content_of w (k ∷ []) = if ltb k w.next then some (w.texts k) else none
content_of w _ = none

abbrev set_text : ℕ → Text → Disk → Disk
set_text k t w = record w { texts = λ j. if k == j then t else w.texts j }

abbrev write : Text → Text → Disk → Disk
write (k ∷ []) t w = set_text k t w
write _ t w = w

abbrev open_new : Disk → Disk
open_new w = record (set_text w.next [] w) { next = suc w.next }

abbrev simple_pki : Pki
simple_pki = record {
  World = Disk;
  Certificate = Text;
  ClientConfig = List Text;
  generate = λ names w. some ((codes "CERT", codes "KEY"), w);
  new_temp_file = λ w. some (w.next ∷ [], open_new w);
  write_all = λ p t w. some (tt, write p t w);
  set_mode = λ p m w. some (tt, record w { modes = λ q. if text_eq p q then m else w.modes q });
  read_file = λ p w. elim (content_of w p) [ none ↦ none | some t ↦ some (t, w) ];
  parse_certificates = λ t. some (t ∷ []);
  trust = λ certificates. certificates;
}

new_file-fresh : (w : Disk) → content_of w (w.next ∷ []) ≡ none
new_file-fresh w = ground arith

new_file-empty : (w : Disk) → content_of (open_new w) (w.next ∷ []) ≡ some []
new_file-empty w = ground arith

new_file-others :
    (w : Disk) (q : Text)
    → text_eq (w.next ∷ []) q ≡ false
    → content_of (open_new w) q ≡ content_of w q
unfolding text_eq
new_file-others w [] h = refl
new_file-others w (k ∷ []) h = ground arith
new_file-others w (k ∷ j ∷ q) h = refl

write-content :
    (p t : Text) (w : Disk)
    → content_of w p ≡ some []
    → (q : Text) → content_of (write p t w) q ≡ (if text_eq p q then some t else content_of w q)
unfolding text_eq
write-content [] t w h q = cc
write-content (k ∷ j ∷ p) t w h q = cc
write-content (k ∷ []) t w h [] = refl
write-content (k ∷ []) t w h (i ∷ []) = ground arith
write-content (k ∷ []) t w h (i ∷ j ∷ q) = ground arith

read-content :
    (p t : Text) (w : Disk)
    → content_of w p ≡ some t
    → Yields
        (λ u v.
          (u ≡ t)
          × ((q : Text) → content_of v q ≡ content_of w q)
          × ((q : Text) → v.modes q ≡ w.modes q))
        (simple_pki.read_file p w)
read-content p t w h = rw (h, simple_pki) (yields (refl, (λ q. refl), λ q. refl))

abbrev simple_pki-IsFiling : IsFiling simple_pki
simple_pki-IsFiling = record {
  content = content_of;
  mode = λ w q. w.modes q;
  issued = λ names w. (codes "CERT", codes "KEY");
  certificates = λ t. t ∷ [];
  generated = λ names w. yields (refl, refl);
  opened = λ w. yields (new_file-fresh w, new_file-empty w, new_file-others w);
  written = λ p t w h. yields (write-content p t w h);
  mode_set = λ p m w. yields ((λ q. refl), λ q. refl);
  read = read-content;
}

abbrev empty_disk : Disk
empty_disk = record { next = 0; texts = λ k. []; modes = λ q. 0 }

abbrev localhost : Ipv4Addr
localhost = record { a = 127; b = 0; c = 0; d = 1 }

new_state-Serves_example :
    Yields
      (Serves simple_pki simple_pki-IsFiling (codes "CERT", codes "KEY"))
      (new_state simple_pki (localhost ∷ []) empty_disk)
new_state-Serves_example =
    new_state-Serves simple_pki simple_pki-IsFiling (localhost ∷ []) empty_disk
