-- ===== src/LicenseMgr/Set.antt =====
-- server/natserver/src/LicenseMgr.cpp: who is on the list after `add` and `remove`.
use p2p_server.Prelude.{
  if◌then◌else◌, ◌≡◌, ◌≢◌, refl, true, false, [], ◌∷◌, Bytes, bytes_eq_iff, is_empty, arith,
}
use p2p_server.Prelude.Maps.{find, contains, insert, bytes_key, find-insert, find-erase}
use p2p_server.Prelude.Unique.{Ordered, insert-Ordered, erase-Ordered}
use p2p_server.LicenseMgr.{LicenseMgr, UuidSet, add, remove, exists, allowed}

insert_not_empty : (uuid : Bytes) (m : UuidSet) → is_empty (insert uuid tt m) ≡ false
unfolding insert
insert_not_empty uuid [] = refl
insert_not_empty uuid ((j, v) ∷ m) = ground arith

add_uuids :
    (s : LicenseMgr) (uuid : Bytes)
    → uuid ≢ []
    → (add s uuid).0.uuids ≡ (if contains uuid s.uuids then s.uuids else insert uuid tt s.uuids)
unfolding add
add_uuids s [] n = absurd (n refl)
add_uuids s (b ∷ bs) n = ground arith

find_added :
    (s : LicenseMgr) (uuid other : Bytes)
    → uuid ≢ []
    → other ≢ uuid
    → find other (add s uuid).0.uuids ≡ find other s.uuids
find_added s uuid other n d =
    ground (arith, add_uuids s uuid n, find-insert uuid other tt s.uuids, bytes_eq_iff uuid other)

contains_not_empty : (uuid : Bytes) (m : UuidSet) → contains uuid m ≡ true → is_empty m ≡ false
unfolding find
contains_not_empty uuid [] h = cc
contains_not_empty uuid (e ∷ m) h = refl

allowed_added : (s : LicenseMgr) (uuid : Bytes) → uuid ≢ [] → is_empty (add s uuid).0.uuids ≡ false
allowed_added s uuid n =
    ground
      (arith, add_uuids s uuid n, insert_not_empty uuid s.uuids, contains_not_empty uuid s.uuids)

-- A uuid that is added is on the list and admitted; one that is not on a list with members is not
-- admitted; removing it takes it off. The other uuids stay as they were, and the list stays a set.
pub add-remove :
    (s : LicenseMgr) (uuid other : Bytes)
    → uuid ≢ []
    → other ≢ uuid
    → Ordered s.uuids
    → let s' = (add s uuid).0 in
      let s'' = (remove s' uuid).0 in
      Ordered s'.uuids
      × Ordered s''.uuids
      × (allowed s' uuid ≡ true)
      × (allowed s' other ≡ exists s other)
      × (exists s'' uuid ≡ false)
      × (exists s'' other ≡ exists s other)
unfolding add remove exists allowed
add-remove s uuid other n d h =
    let m = insert uuid tt s.uuids in
    let added = add_uuids s uuid n in
    let found = find_added s uuid other n d in
    (
      ground (arith, added, insert-Ordered uuid tt s.uuids h),
      ground (
        arith,
        added,
        insert-Ordered uuid tt s.uuids h,
        erase-Ordered uuid s.uuids h,
        erase-Ordered uuid m,
      ),
      ground (arith, added, find-insert uuid uuid tt s.uuids, bytes_eq_iff uuid uuid),
      ground (arith, allowed_added s uuid n, found),
      ground (arith, find-erase uuid uuid (add s uuid).0.uuids, bytes_eq_iff uuid uuid),
      ground (arith, find-erase uuid other (add s uuid).0.uuids, bytes_eq_iff uuid other, found),
    )
