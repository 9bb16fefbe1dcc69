-- ===== src/Jsonl.antt =====
-- crates/apolysis-store/src/lib.rs: the JSONL timeline with rotation. A file is its bytes, what the
-- writer has buffered included; the archives are a map from their number to their bytes. Files are
-- changed by the store alone, and reading and writing are assumed to succeed. A record is its line.
pub mod Rotation
mod Examples
use apolysis.Common.{
  ℕ, zero, suc, ◌+◌, ◌-◌, ◌≡◌, Bool, true, false, ◌&&◌, Option, none, some, List, [], ◌∷◌, ◌++◌,
  ltb, ◌==◌, if◌then◌else◌, Result, ok, err, ◌>>=◌, ◌>>◌, reject_if, length, saturating_add,
}
use apolysis.Common.Ordered.{number_ord}
use apolysis.Common.TreeMap
use apolysis.Common.TreeMap.{TreeMap}

abbrev pub Bytes : Type 0
Bytes = List ℕ

pub record JsonlRotationPolicy : Type 0 where
  pub max_file_bytes : ℕ
  pub max_archived_files : ℕ

pub record JsonlStore : Type 0 where
  pub active : Bytes
  pub archives : TreeMap ℕ Bytes
  pub current_bytes : ℕ
  pub rotation : Option JsonlRotationPolicy

pub data PolicyError : Type 0 where
  no_file_bytes no_archived_files : PolicyError

unfoldable pub validate_rotation_policy : JsonlRotationPolicy → Result (Unit {0}) PolicyError
validate_rotation_policy r = do
  reject_if (r.max_file_bytes == 0) no_file_bytes
  reject_if (r.max_archived_files == 0) no_archived_files

abbrev pub validate_rotation : Option JsonlRotationPolicy → Result (Unit {0}) PolicyError
validate_rotation none = ok tt
validate_rotation (some r) = validate_rotation_policy r

-- `create_with_rotation_policy`, with the archives that are there.
unfoldable pub create_with_rotation_policy :
    TreeMap ℕ Bytes → Option JsonlRotationPolicy → Result JsonlStore PolicyError
create_with_rotation_policy archives rotation = do
  validate_rotation rotation
  ok (record { active = []; archives = archives; current_bytes = 0; rotation = rotation })

-- One turn of the loop of `rotate`: an archive that exists is renamed to the next number.
unfoldable pub move_up : ℕ → TreeMap ℕ Bytes → TreeMap ℕ Bytes
move_up i m = elim (TreeMap.get i m) [
  | none ↦ m
  | some bytes ↦ TreeMap.insert (i + 1) bytes (TreeMap.remove i m)
]

-- `for index in (1..max).rev()`, where the argument is `max - 1`.
unfoldable pub move_all : ℕ → TreeMap ℕ Bytes → TreeMap ℕ Bytes
unfolding move_up
move_all zero m = m
move_all (suc n) m = move_all n (move_up (suc n) m)

unfoldable pub rotate : JsonlRotationPolicy → JsonlStore → JsonlStore
unfolding move_all
rotate r s = record s {
  active = [];
  archives =
      TreeMap.insert 1 s.active
        (move_all (r.max_archived_files - 1) (TreeMap.remove r.max_archived_files s.archives));
  current_bytes = 0;
}

unfoldable pub should_rotate_before : ℕ → JsonlRotationPolicy → JsonlStore → Bool
should_rotate_before next r s =
    ltb 0 s.current_bytes && ltb r.max_file_bytes (saturating_add s.current_bytes next)

abbrev pub room_for : Option JsonlRotationPolicy → ℕ → JsonlStore → JsonlStore
room_for none next s = s
room_for (some r) next s = if should_rotate_before next r s then rotate r s else s

-- The store that `append` writes to: rotated where the policy asks for it.
unfoldable pub make_room : ℕ → JsonlStore → JsonlStore
make_room next s = room_for s.rotation next s

abbrev pub write_line : Bytes → JsonlStore → JsonlStore
write_line line s = record s {
  active = s.active ++ (line ++ 10 ∷ []);
  current_bytes = saturating_add s.current_bytes (saturating_add (length line) 1);
}

unfoldable pub append : Bytes → JsonlStore → JsonlStore
append line s = write_line line (make_room (saturating_add (length line) 1) s)
