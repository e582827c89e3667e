-- ===== src/Election/Outcomes.antt =====
-- `do_election`: that the best standby wins.
use hg_repmgr.Base.{
  ℕ, false, List, [], ◌∷◌, some, ◌≡◌, ◌≢◌, ◌⊎◌, inl, inr, refl, sym, ap, ◌∙◌, arith, ◌&&◌, not, In,
  here, there,
}
use hg_repmgr.Node.{NodeInfo, ReplInfo, invalid_lsn}
use hg_repmgr.Follow.{LocalSystem}
use hg_repmgr.Daemon.{Options, Daemon, won}
use hg_repmgr.Election.{Peer, View, Tally, Cell}
use hg_repmgr.Election.Vote.{counted, visit_all, with_lsn, poll, with_siblings, do_election}
use hg_repmgr.Election.Loop.{
  IsRival, as_candidate, visit_candidate, visit_all_cons, visit_all_done, better_either_candidate,
}
use hg_repmgr.Election.Winner.{siblings_of, IsOpen}

module _ (opts : Options) (upstream : NodeInfo) (system : LocalSystem) (local_lsn : ℕ) where
  -- The final candidate is the first one or a rival.
  pub visit_all_from :
      (ps : List Peer) (t t' : Tally) (cs : List Cell)
      → visit_all opts upstream system local_lsn ps t ≡ counted t' cs
      → (t'.candidate ≡ t.candidate)
        ⊎ ((p : Peer) × (r : ReplInfo) × In p ps × IsRival p r × (t'.candidate ≡ as_candidate p r))
  visit_all_from [] t t' cs h = inl (
      ap (λ (x : Tally). x.candidate)
        (sym (visit_all_done opts upstream system local_lsn t t' cs h)))
  visit_all_from (p ∷ ps) t t' cs h =
      let (u, c, ds, one, rest) = visit_all_cons opts upstream system local_lsn p ps t t' cs h in
      elim (visit_all_from ps u t' ds rest) [
        | inr (q, r, i, v, e) ↦ inr (q, r, there i, v, e)
        | inl e ↦ elim (better_either_candidate p t.candidate) [
          | inl f ↦ inl (e ∙ visit_candidate opts upstream system local_lsn p t u c one ∙ f)
          | inr (r, v, f) ↦
              inr
                (p, r, here, v, e ∙ visit_candidate opts upstream system local_lsn p t u c one ∙ f)
        ]
      ]

pub with_siblings_won :
    (opts : Options) (view : View) (d : Daemon) (ps : List Peer) (r : ReplInfo)
    → ps ≢ []
    → view.replication ≡ some r
    → (r.wal_replay_paused && not view.resumed) ≡ false
    → (poll opts view d ps r).result ≡ won
    → (with_siblings opts view d ps).result ≡ won
unfolding with_siblings
with_siblings_won opts view d [] r n e p h = absurd (n refl)
with_siblings_won opts view d (q ∷ ps) r n e p h = ground arith

pub open_won :
    (opts : Options) (view : View) (d : Daemon)
    → IsOpen opts view d
    → (with_siblings opts view (with_lsn invalid_lsn d) (siblings_of view d)).result ≡ won
    → (do_election opts view d).result ≡ won
unfolding do_election
open_won opts view d o h = ground arith
