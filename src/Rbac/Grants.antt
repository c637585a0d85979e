-- ===== src/Rbac/Grants.antt =====
-- Who the table grants what.
use prompt_studio_backend.Prelude.{
  String, Bool, true, false, List, [], ◌∷◌, ◌++◌, ◌≡◌, refl, ◌⊎◌, inl, inr, ◌==◌, string_eq,
  any_where, Bool-cases, All,
}
use prompt_studio_backend.Core.Roles.{GlobalRole}
use prompt_studio_backend.Rbac.{role_has, admin_permissions, irreversible_permissions}

any_where-append :
    {A : Type 0} (p : A → Bool) (xs ys : List A)
    → any_where p xs ≡ true
    → any_where p (xs ++ ys) ≡ true
unfolding any_where
any_where-append p [] ys h = cc
any_where-append p (x ∷ xs) ys h = elim (Bool-cases (p x)) [
  | inl e ↦ rw e refl
  | inr e ↦ rw e (any_where-append p xs ys (rw e at h))
]

-- Nothing that cannot be undone, nor the roles themselves, is granted below a superadmin, unless the
-- account has the break-glass flag.
pub irreversible_needs_superadmin :
    (role : GlobalRole) (is_superuser : Bool)
    → All
        (λ code.
          role_has role code is_superuser ≡ true
          → (is_superuser ≡ true) ⊎ (role ≡ GlobalRole.superadmin))
        irreversible_permissions
unfolding role_has any_where
irreversible_needs_superadmin role true = (λ h. inl refl, (λ h. inl refl, (λ h. inl refl, tt)))
irreversible_needs_superadmin GlobalRole.superadmin false =
    (λ h. inr refl, (λ h. inr refl, (λ h. inr refl, tt)))
irreversible_needs_superadmin GlobalRole.admin false = (λ h. cc, (λ h. cc, (λ h. cc, tt)))
irreversible_needs_superadmin GlobalRole.member false = (λ h. cc, (λ h. cc, (λ h. cc, tt)))

-- What any role may do, a superadmin may do, and so may an account with the break-glass flag.
pub role_has_grows :
    (role : GlobalRole) (code : String) (is_superuser : Bool)
    → role_has role code is_superuser ≡ true
    → (role_has GlobalRole.superadmin code false ≡ true) × (role_has role code true ≡ true)
unfolding role_has any_where
role_has_grows role code true h = (h, h)
role_has_grows GlobalRole.superadmin code false h = (h, h)
role_has_grows GlobalRole.admin code false h =
    let more = any_where-append (λ p. p == code) admin_permissions irreversible_permissions h in
    (more, more)
role_has_grows GlobalRole.member code false h = (cc, cc)
