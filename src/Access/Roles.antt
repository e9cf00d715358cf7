-- ===== src/Access/Roles.antt =====
-- The default roles, and what the console says about a changed role.
use nestfleet.Prelude.{
  ◌≡◌, refl, subst, ◌↔◌, inl, inr, String, Bool, true, false, List, [], ◌∷◌, some, arith, includes,
  by_text, all, keep, not, Has, includes→Has, Has→includes, Bool-cases, str_eq,
}
use nestfleet.Access.Permissions.{default_permissions, default_role_permissions, entry}
use nestfleet.Access.Engine.{dependencies_of, is_dirty, get_permission_diff, nonempty}
use nestfleet.Access.Closure.{IsClosed}

all→Has :
    (f : String → Bool) (xs : List String) (x : String) → all f xs ≡ true → Has x xs → f x ≡ true
all→Has f [] x h m = absurd m
all→Has f (y ∷ ys) x h (inl e) = ground arith
all→Has f (y ∷ ys) x h (inr m) = all→Has f ys x (ground arith) m

-- The test that a list has what its members require.
abbrev has_required : List String → Bool
has_required xs = all (λ p. all (λ d. includes xs d) (dependencies_of p)) xs

has_required-IsClosed : (xs : List String) → has_required xs ≡ true → IsClosed xs
has_required-IsClosed xs h p a m d = includes→Has xs a (
    all→Has (λ q. includes xs q) (dependencies_of p) a
      (all→Has (λ q. all (λ r. includes xs r) (dependencies_of q)) xs p h m) d)

entry-has_required :
    (role : String) (m : List (String × List String)) (perms : List String)
    → all (λ e. has_required e.1) m ≡ true
    → entry role m ≡ some perms
    → has_required perms ≡ true
unfolding entry
entry-has_required role [] perms h e = cc
entry-has_required role ((k, v) ∷ m) perms h e = elim (Bool-cases (str_eq k role)) [
  | inl same ↦
      let same_list : v ≡ perms = ground arith in
      subst (λ x. has_required x ≡ true) same_list (ground arith)
  | inr other ↦ entry-has_required role m perms (ground arith) (ground arith)
]

all_required : all (λ e. has_required e.1) default_role_permissions ≡ true
unfolding dependencies_of entry
all_required = refl

-- The default permissions of each role hold every permission that one of them requires.
pub default_permissions-IsClosed :
    (role : String) (perms : List String) → default_permissions role ≡ some perms → IsClosed perms
unfolding default_permissions
default_permissions-IsClosed role perms h =
    has_required-IsClosed perms
      (entry-has_required role default_role_permissions perms all_required h)

-- The members of `xs` that are not in `ys`.
extra-none :
    (xs ys : List String)
    → nonempty (keep (λ p. not (includes ys p)) xs) ≡ false
    → (a : String) → Has a xs
    → Has a ys
extra-none [] ys h a m = absurd m
extra-none (x ∷ xs) ys h a (inl e) = subst (λ b. Has b ys) e (includes→Has ys x (ground arith))
extra-none (x ∷ xs) ys h a (inr m) = extra-none xs ys (ground arith) a m

none-extra :
    (xs ys : List String)
    → ((a : String) → Has a xs → Has a ys)
    → nonempty (keep (λ p. not (includes ys p)) xs) ≡ false
none-extra [] ys h = refl
none-extra (x ∷ xs) ys h =
    ground (arith, Has→includes ys x (h x (inl refl)), none-extra xs ys (λ a m. h a (inr m)))

-- `is_dirty` is false exactly when the two lists have the same members.
pub is_dirty_iff :
    (current default_perms : List String)
    → (is_dirty current default_perms ≡ false)
      ↔ ((a : String) → Has a current ↔ Has a default_perms)
unfolding is_dirty get_permission_diff
is_dirty_iff current default_perms = (
  λ h a. (
    extra-none current default_perms (ground arith) a,
    extra-none default_perms current (ground arith) a,
  ),
  λ h. ground (
    arith,
    none-extra current default_perms (λ a. (h a).0),
    none-extra default_perms current (λ a. (h a).1),
  ),
)
