-- ===== src/Ingester/Cutting.antt =====
-- When live snapshots are cut, and what an error leaves of them.
use deep.Prelude.{
  ℕ, ◌≤◌, ◌<◌, ◌≡◌, refl, Bytes, true, false, List, [], ◌∷◌, Option, some, Map, All, arith,
}
use deep.Backend.{Time}
use deep.Ingester.Push.{LiveSnapshot, Entry, Manager, failed, other}
use deep.Ingester.Cut.{
  kept_live, cut_live, snapshots_to_cut, sort_by_id, entry_of, write_all, cut_snapshots,
}

abbrev pub values : Map ℕ LiveSnapshot → List LiveSnapshot
values [] = []
values ((k, s) ∷ live) = s ∷ values live

kept_live-none :
    (now cutoff : Time) (live : Map ℕ LiveSnapshot)
    → 0 < cutoff
    → All (λ (s : LiveSnapshot). s.last_append ≤ now) (values live)
    → kept_live now cutoff false live ≡ []
unfolding kept_live
kept_live-none now cutoff [] h a = refl
kept_live-none now cutoff ((k, s) ∷ live) h a =
    ground (arith, h, a.0, kept_live-none now cutoff live h a.1)

cut_live-all :
    (now cutoff : Time) (live : Map ℕ LiveSnapshot)
    → 0 < cutoff
    → All (λ (s : LiveSnapshot). s.last_append ≤ now) (values live)
    → cut_live now cutoff false live ≡ values live
unfolding cut_live
cut_live-all now cutoff [] h a = refl
cut_live-all now cutoff ((k, s) ∷ live) h a =
    ground (arith, h, a.0, cut_live-all now cutoff live h a.1)

kept_live-immediate :
    (now cutoff : Time) (live : Map ℕ LiveSnapshot) → kept_live now cutoff true live ≡ []
unfolding kept_live
kept_live-immediate now cutoff [] = refl
kept_live-immediate now cutoff ((k, s) ∷ live) = ground (arith, kept_live-immediate now cutoff live)

-- With a positive idle period every live snapshot is cut, however short ago it was appended to, and
-- none stays live.
pub snapshots_to_cut-all :
    (now cutoff : Time) (m : Manager)
    → 0 < cutoff
    → All (λ (s : LiveSnapshot). s.last_append ≤ now) (values m.live_snapshots)
    → snapshots_to_cut now cutoff false m
      ≡ (record m { live_snapshots = []; snapshot_count = 0 }, values m.live_snapshots)
unfolding snapshots_to_cut
snapshots_to_cut-all now cutoff m h a =
    rw
      (kept_live-none now cutoff m.live_snapshots h a, cut_live-all now cutoff m.live_snapshots h a)
      refl

-- Where the head block refuses the first of the snapshots that an immediate cut writes, the call
-- fails with the head block as it was and no snapshot live: all that were live are lost.
pub cut_snapshots-refused :
    (to_object : Bytes → Option Bytes) (append_error : Entry → Option ℕ) (now cutoff : Time)
    (flush_error : Option ℕ) (m : Manager) (t : LiveSnapshot) (ts : List LiveSnapshot) (out : Bytes)
    (e : ℕ)
    → sort_by_id (cut_live now cutoff true m.live_snapshots) ≡ t ∷ ts
    → to_object t.content ≡ some out
    → append_error (entry_of to_object append_error t out) ≡ some e
    → cut_snapshots to_object append_error now cutoff true flush_error m
      ≡ (record m { live_snapshots = []; snapshot_count = 0 }, failed (other e))
unfolding cut_snapshots write_all snapshots_to_cut
cut_snapshots-refused to_object append_error now cutoff flush_error m t ts out e h k r =
    ground (arith, h, k, r, kept_live-immediate now cutoff m.live_snapshots)
