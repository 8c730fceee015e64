-- ===== src/Accounts/Users/Admins.antt =====
-- firemex/store.py: `_delete_user` and the administrators that remain.
use fireme_x.Base.{
  Option-cases, inr, length, inl, ℕ, suc, ◌+◌, ◌≤◌, ◌≡◌, Bool, some, [], ◌∷◌, arith, if◌then◌else◌,
  Bool-cases,
}
use fireme_x.Accounts.Text.{Text, text_eq, lower}
use fireme_x.Accounts.Users.{
  User, Users, find_named, remove_named, get_user, active_admin, count_admins, delete_user,
  delete_found, deleted,
}

abbrev one_if : Bool → ℕ
one_if b = if b then 1 else 0

count_admins-remove_named :
    (name : Text) (us : Users) (u : User)
    → find_named name us ≡ some u
    → count_admins us ≡ one_if (active_admin u) + count_admins (remove_named name us)
unfolding find_named remove_named
count_admins-remove_named name [] u e = absurd (ground arith)
count_admins-remove_named name (v ∷ us) u e = elim (Bool-cases (text_eq v.username name)) [
  | inl same ↦ ground arith
  | inr other ↦ ground (arith, count_admins-remove_named name us u)
]

length-remove_named :
    (name : Text) (us : Users) (u : User)
    → find_named name us ≡ some u
    → length us ≡ suc (length (remove_named name us))
unfolding find_named remove_named
length-remove_named name [] u e = absurd (ground arith)
length-remove_named name (v ∷ us) u e = elim (Bool-cases (text_eq v.username name)) [
  | inl same ↦ ground arith
  | inr other ↦ ground (arith, length-remove_named name us u)
]

-- Where a user can be deleted, the table that is left has an active administrator if it had one before,
-- and it has one row less.
pub delete_user_keeps_admin :
    (name : Text) (us us' : Users)
    → 1 ≤ count_admins us
    → delete_user name us ≡ deleted us'
    → (1 ≤ count_admins us') × (length us ≡ suc (length us'))
unfolding delete_user delete_found
delete_user_keeps_admin name us us' some_admin e = elim (Option-cases (get_user name us)) [
  | inl missing ↦ absurd (ground arith)
  | inr (u, found) ↦ (
    ground (arith, count_admins-remove_named (lower name) us u found),
    ground (arith, length-remove_named (lower name) us u found),
  )
]
