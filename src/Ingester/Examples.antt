-- ===== src/Ingester/Examples.antt =====
-- The ingester's theorems at concrete states.
use deep.Prelude.{
  ℕ, Bytes, bytes_eq, Bool, true, false, [], ◌∷◌, Option, none, some, length, inl, ◌≡◌, refl, arith,
}
use deep.Ingester.Push.{
  Entry, Manager, ok, failed, other, new_tenant_block_manager, new_live_snapshot, push_bytes, push,
  push_live, get_or_create_snapshot,
}
use deep.Ingester.Cut.{
  snapshots_to_cut, cut_snapshots, cut_live, kept_live, write_all, cut_block_if_ready,
}
use deep.Ingester.Blocks.{Ingest}
use deep.Ingester.Bounds.{Sized, push_bytes-Sized}
use deep.Ingester.Cutting.{snapshots_to_cut-all, cut_snapshots-refused}
use deep.Ingester.Kept.{IsSafe}
use deep.Ingester.Histories.{Steps, start, after, cuts, cuts_block, pushed-IsSafe}

abbrev an_id : Bytes
an_id = 1 ∷ 2 ∷ 3 ∷ 4 ∷ 5 ∷ 6 ∷ 7 ∷ 8 ∷ 9 ∷ 10 ∷ 11 ∷ 12 ∷ 13 ∷ 14 ∷ 15 ∷ 16 ∷ []

abbrev first_byte : Bytes → ℕ
first_byte [] = 0
first_byte (b ∷ bs) = b

abbrev any_range : Bytes → Option ℕ
any_range bs = some 0

abbrev admits_all : ℕ → Bool
admits_all n = true

abbrev fresh : Manager
fresh = new_tenant_block_manager 7 100

push_bytes-Sized_example :
    Sized any_range 100 first_byte 10 1 3 1 fresh.snapshot_sizes
      (push_bytes any_range 100 first_byte 10 admits_all an_id
        (b'a' ∷ b'b' ∷ b'c' ∷ [])
        fresh).0.snapshot_sizes
      (push_bytes any_range 100 first_byte 10 admits_all an_id (b'a' ∷ b'b' ∷ b'c' ∷ []) fresh).1
push_bytes-Sized_example =
    push_bytes-Sized any_range 100 first_byte 10 admits_all an_id (b'a' ∷ b'b' ∷ b'c' ∷ []) 1 fresh
      (omega arith) (omega arith)

abbrev begun : Ingest
begun = record { manager = fresh; stored = [] }

abbrev after_push : Ingest
after_push = record begun {
  manager = (push_bytes any_range 100 first_byte 10 admits_all an_id (b'a' ∷ []) fresh).0;
}

accepted : (push_bytes any_range 100 first_byte 10 admits_all an_id (b'a' ∷ []) fresh).1 ≡ ok tt
unfolding push_bytes push push_live get_or_create_snapshot new_tenant_block_manager
accepted = refl

abbrev takes_all : Entry → Option ℕ
takes_all e = none

-- The snapshot is cut, and then its block.
abbrev after_cut : Ingest
after_cut = record after_push {
  manager = (cut_snapshots some takes_all 200 5 true none after_push.manager).0;
}

abbrev after_block : Ingest
after_block = record after_cut {
  manager = (cut_block_if_ready length 200 50 1000 true none (ok 8) after_cut.manager).0;
}

cut_fine : (cut_snapshots some takes_all 200 5 true none after_push.manager).1 ≡ ok tt
unfolding cut_snapshots snapshots_to_cut cut_live kept_live write_all push_bytes push push_live
    get_or_create_snapshot new_tenant_block_manager
cut_fine = refl

later : Steps first_byte any_range some length after_push after_block
later =
    after (after start (cuts takes_all 200 5 true none cut_fine))
      (cuts_block 200 50 1000 true none (ok 8))

pushed-IsSafe_example : IsSafe first_byte an_id after_block
unfolding new_tenant_block_manager
pushed-IsSafe_example =
    pushed-IsSafe first_byte any_range some length an_id 100 10 admits_all (b'a' ∷ []) begun tt
      (inl refl) accepted later

abbrev one_live : Manager
one_live = record fresh {
  live_snapshots = (1, new_live_snapshot 90 an_id 0) ∷ [];
  snapshot_count = 1;
}

snapshots_to_cut-all_example : snapshots_to_cut 100 5 false one_live ≡ (
  record one_live { live_snapshots = []; snapshot_count = 0 },
  new_live_snapshot 90 an_id 0 ∷ [],
)
snapshots_to_cut-all_example = snapshots_to_cut-all 100 5 one_live (omega arith) (omega arith)

abbrev refuses : Entry → Option ℕ
refuses e = some 3

first_cut : cut_live 100 5 true one_live.live_snapshots ≡ new_live_snapshot 90 an_id 0 ∷ []
unfolding cut_live
first_cut = refl

cut_snapshots-refused_example :
    cut_snapshots some refuses 100 5 true none one_live
    ≡ (record one_live { live_snapshots = []; snapshot_count = 0 }, failed (other 3))
cut_snapshots-refused_example =
    cut_snapshots-refused some refuses 100 5 none one_live (new_live_snapshot 90 an_id 0) [] [] 3
      (rw first_cut refl) refl refl
