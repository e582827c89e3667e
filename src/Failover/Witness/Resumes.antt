-- ===== src/Failover/Witness/Resumes.antt =====
-- `do_witness_failover`: when a witness resumes its monitoring.
use hg_repmgr.Base.{
  ℤ, ℕ, true, false, Option, none, some, ◌≡◌, ◌≢◌, ◌↔◌, ◌⊎◌, inl, inr, arith, eqb_ℤ, eqb_ℤ→eq,
  eqb_ℤ_refl, refl, Option-cases, Bool-cases,
}
use hg_repmgr.Node.{RecoveryType, rectype_primary}
use hg_repmgr.Daemon.{Options, Daemon}
use hg_repmgr.Failover.{poll_new_primary}
use hg_repmgr.Failover.Steps.{wait_primary_notification, is_up_primary}
use hg_repmgr.Failover.Witness.{WitnessView, do_witness_failover, witness_follow_new_primary}

-- What it takes to follow a node: its record, that it is a primary, and both records read from it.
pub record Followable (v : WitnessView) : Type 0 where
  pub recorded : v.new_record ≡ true
  pub is_primary : v.new_primary ≡ some rectype_primary
  pub upstream_read : v.upstream_record ≢ none
  pub own_read : v.own_record ≢ none

is_up_primary_lem : (v : Option RecoveryType) → is_up_primary v ≡ true → v ≡ some rectype_primary
is_up_primary_lem none h = absurd (ground arith)
is_up_primary_lem (some rectype_primary) h = refl
is_up_primary_lem (some _) h = absurd (ground arith)

module _ (opts : Options) (answers : ℕ → Option ℤ) (view : ℤ → WitnessView) (d : Daemon) where
  resumes-Followable :
      (id : ℤ)
      → poll_new_primary opts.primary_notification_timeout answers 0 ≡ some id
      → eqb_ℤ id d.upstream.node_id ≡ false
      → (do_witness_failover opts answers view d).result ≡ true
      → Followable (view id)
  unfolding do_witness_failover witness_follow_new_primary wait_primary_notification
  resumes-Followable id h n k = record {
    recorded = ground arith;
    is_primary = is_up_primary_lem (view id).new_primary (ground arith);
    upstream_read = ground arith;
    own_read = ground arith;
  }

  Followable-resumes :
      (id : ℤ)
      → poll_new_primary opts.primary_notification_timeout answers 0 ≡ some id
      → (id ≡ d.upstream.node_id) ⊎ Followable (view id)
      → (do_witness_failover opts answers view d).result ≡ true
  unfolding do_witness_failover witness_follow_new_primary wait_primary_notification
  Followable-resumes id h (inl e) = ground (arith, eqb_ℤ_refl d.upstream.node_id)
  Followable-resumes id h (inr f) = elim (Option-cases (view id).upstream_record) [
    | inl e ↦ absurd (f.upstream_read e)
    | inr (n, e) ↦ elim (Option-cases (view id).own_record) [
      | inl q ↦ absurd (f.own_read q)
      | inr (m, q) ↦ ground (arith, f.recorded, f.is_primary)
    ]
  ]

  unheard_witness :
      poll_new_primary opts.primary_notification_timeout answers 0 ≡ none
      → (do_witness_failover opts answers view d).result ≡ false
  unfolding do_witness_failover wait_primary_notification
  unheard_witness h = ground arith

  resumes_sound :
      (do_witness_failover opts answers view d).result ≡ true
      → (id : ℤ) × (poll_new_primary opts.primary_notification_timeout answers 0 ≡ some id)
        × ((id ≡ d.upstream.node_id) ⊎ Followable (view id))
  resumes_sound k =
      elim (Option-cases (poll_new_primary opts.primary_notification_timeout answers 0)) [
        | inl h ↦ absurd (ground (arith, unheard_witness h))
        | inr (id, h) ↦ (
          id,
          h,
          elim (Bool-cases (eqb_ℤ id d.upstream.node_id)) [
            | inl e ↦ inl (eqb_ℤ→eq id d.upstream.node_id e)
            | inr n ↦ inr (resumes-Followable id h n k)
          ],
        )
      ]

  -- A witness resumes its monitoring exactly if a notification arrives within the timeout that
  -- names its old primary, or a node that has a record, can be connected to, is a primary, and
  -- gives the records of itself and of the witness.
  pub do_witness_failover_iff : ((do_witness_failover opts answers view d).result ≡ true) ↔ (
      (id : ℤ) × (poll_new_primary opts.primary_notification_timeout answers 0 ≡ some id)
      × ((id ≡ d.upstream.node_id) ⊎ Followable (view id)))
  do_witness_failover_iff = (resumes_sound, λ c. Followable-resumes c.0 c.1 c.2)
