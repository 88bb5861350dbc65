-- ===== src/Scylla/OneNode.antt =====
-- crates/e2etest-scylla-cluster/src/lib.rs: what is done to one node, on a system whose calls succeed.
use e2etest_rs.Prelude.{
  ℕ, ◌≡◌, refl, Bool, true, false, Option, none, some, arith, Option-cases, inl, inr,
}
use e2etest_rs.Prelude.Text.{Text}
use e2etest_rs.System.Command.{Ipv4Addr}
use e2etest_rs.System.Os.{Os, Returns, IsHealthy, drop_old_child, drop_old_dir}
use e2etest_rs.Runner.Runtime.{Yields, yields, Yields-bind}
use e2etest_rs.Scylla.Node.{NodeConfig, NodeState, State, write_conf, run_node}
use e2etest_rs.Scylla.{chown_for, start_one, take_child, up_in_place}

abbrev pub is_some : {A : Type 0} → Option A → Bool
is_some none = false
is_some (some x) = true

module _ (os : Os) where
  abbrev pub has_workdir : NodeState os → Bool
  has_workdir n = is_some n.workdir

  -- The node keeps its address, has this bit and has a working directory if the old one had.
  abbrev pub Becomes : Bool → NodeState os → NodeState os → Type 0
  Becomes b n m = (m.db_ip ≡ n.db_ip) × (is_some m.child ≡ b) × (has_workdir m ≡ has_workdir n)

  module _ (healthy : IsHealthy os) where
    pub write_conf-Returns :
        (d p : Text) (c : Option Text) (w : os.World) → Returns os (write_conf os d p c w)
    write_conf-Returns d p none w = yields tt
    write_conf-Returns d p (some c) w =
        Yields-bind _ _ _ (healthy.write_file _ c w) λ _ v h. yields tt

    pub run_node-Returns :
        (c : NodeConfig) (seeds path rack : Text) (s : State os) (w : os.World)
        → Returns os (run_node os c seeds path rack s w)
    unfolding run_node
    run_node-Returns c seeds path rack s w =
        Yields-bind _ _ _ (write_conf-Returns _ _ _ w) λ conf w₁ h₁.
          Yields-bind _ _ _ (healthy.create_dir_all _ w₁) λ _ w₂ h₂.
            Yields-bind _ _ _ (healthy.write_file _ _ w₂) λ _ w₃ h₃.
              Yields-bind {P = λ _ _. Unit {0}} _ _ _ (yields tt) λ user w₄ h₄. healthy.spawn _ w₄

    pub chown_for-Returns :
        (p : Text) (u : Option (ℕ × ℕ)) (w : os.World) → Returns os (chown_for os p u w)
    chown_for-Returns p none w = yields tt
    chown_for-Returns p (some u) w = healthy.chown p u w

    pub start_one-Yields :
        (s : State os) (seed : Ipv4Addr) (i : ℕ) (c : NodeConfig) (w : os.World)
        → Yields
            (λ m _. (m.db_ip ≡ c.db_ip) × (is_some m.child ≡ true) × (has_workdir m ≡ true))
            (start_one os s seed i c w)
    unfolding start_one
    start_one-Yields s seed i c w = Yields-bind _ _ _ (healthy.new_temp_dir s.tempdir w) λ d w₁ h₁.
        Yields-bind {P = λ _ _. Unit {0}} _ _ _ (yields tt) λ user w₂ h₂.
          Yields-bind _ _ _ (chown_for-Returns _ user w₂) λ _ w₃ h₃.
            Yields-bind _ _ _ (run_node-Returns c _ _ _ s w₃)
              λ child w₄ h₄. yields (refl, refl, refl)

    pub take_child-Yields :
        (n : NodeState os) (w : os.World) → Yields (λ m _. Becomes false n m) (take_child os n w)
    unfolding take_child
    take_child-Yields n w = elim (Option-cases n.child) [
      | inl e ↦ rw e (yields (refl, ground (arith, e), refl))
      | inr (c, e) ↦ rw e (
          Yields-bind _ _ _ (healthy.start_kill c w)
            λ _ w₁ h₁. Yields-bind _ _ _ (healthy.wait c w₁) λ _ w₂ h₂. yields (refl, refl, refl))
    ]

    pub drop_old_child-Returns :
        (c : Option os.Child) (w : os.World) → Returns os (drop_old_child os c w)
    drop_old_child-Returns none w = yields tt
    drop_old_child-Returns (some c) w = yields tt

    pub drop_old_dir-Returns :
        (d : Option os.TempDir) (w : os.World) → Returns os (drop_old_dir os d w)
    drop_old_dir-Returns none w = yields tt
    drop_old_dir-Returns (some d) w = yields tt

    pub up_in_place-Yields :
        (s : State os) (seed : Text) (i : ℕ) (c : NodeConfig) (n : NodeState os) (w : os.World)
        → has_workdir n ≡ true
        → Yields (λ m _. Becomes true n m) (up_in_place os s seed i c n w)
    unfolding up_in_place
    up_in_place-Yields s seed i c n w h = elim (Option-cases n.workdir) [
      | inl e ↦ ground (arith, e)
      | inr (d, e) ↦ rw e (
          Yields-bind _ _ _ (run_node-Returns c seed _ _ s w) λ child w₁ h₁.
            Yields-bind _ _ _ (drop_old_child-Returns n.child w₁)
              λ _ w₂ h₂. yields (refl, refl, refl))
    ]
