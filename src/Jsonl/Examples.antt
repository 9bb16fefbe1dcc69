-- ===== src/Jsonl/Examples.antt =====
-- The JSONL store on small files.
use apolysis.Common.{◌≡◌, refl, some, ok, [], ◌∷◌, arith}
use apolysis.Common.TreeMap
use apolysis.Jsonl.{
  JsonlStore, JsonlRotationPolicy, append, make_room, should_rotate_before, rotate, move_all,
  validate_rotation_policy,
}
use apolysis.Jsonl.Rotation.{IsAppended, append-IsAppended}

abbrev small : JsonlRotationPolicy
small = record { max_file_bytes = 4; max_archived_files = 2 }

-- Six bytes would pass the limit.
abbrev written : JsonlStore
written = record {
  active = 1 ∷ 2 ∷ 10 ∷ [];
  archives = (1, 3 ∷ 10 ∷ []) ∷ (2, 4 ∷ 10 ∷ []) ∷ [];
  current_bytes = 3;
  rotation = some small;
}

append-written :
    (append (5 ∷ 6 ∷ []) written).archives ≡ (1, 1 ∷ 2 ∷ 10 ∷ []) ∷ (2, 3 ∷ 10 ∷ []) ∷ []
unfolding append make_room should_rotate_before rotate move_all TreeMap.get TreeMap.insert
    TreeMap.remove
append-written = refl

small_accepted : validate_rotation_policy small ≡ ok tt
unfolding validate_rotation_policy
small_accepted = refl

append-IsAppended_example : IsAppended (5 ∷ 6 ∷ []) small written (append (5 ∷ 6 ∷ []) written)
append-IsAppended_example =
    append-IsAppended (5 ∷ 6 ∷ []) small written refl small_accepted refl (omega arith)
