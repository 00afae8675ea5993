-- ===== src/Media/Config/Direction.antt =====
-- `direction_for` against its last line.
use srhc_observability_claud.Prelude.{
  ◌≡◌, refl, Bool, true, false, Bool-cases, inl, inr, ◌&&◌, ◌++◌, if◌then◌else◌,
}
use srhc_observability_claud.Prelude.Text.{Text, codes, text_eq, text_eq_iff}
use srhc_observability_claud.Media.Config.{direction_for}

and_left : (a b : Bool) → (a && b) ≡ true → a ≡ true
and_left true b h = refl
and_left false b h = absurd (cc h)

and_right : (a b : Bool) → (a && b) ≡ true → b ≡ true
and_right true b h = h
and_right false b h = absurd (cc h)

-- A case whose label is what the last line makes of the two roles.
special :
    (src dst a b label rest : Text)
    → label ≡ a ++ codes "_to_" ++ b
    → rest ≡ src ++ codes "_to_" ++ dst
    → (if text_eq src a && text_eq dst b then label else rest) ≡ src ++ codes "_to_" ++ dst
special src dst a b label rest l r = elim (Bool-cases (text_eq src a && text_eq dst b)) [
  | inl e ↦
      let p : src ≡ a = (text_eq_iff src a).0 (and_left _ _ e) in
      let q : dst ≡ b = (text_eq_iff dst b).0 (and_right _ _ e) in simp e (rw (p, q) l)
  | inr e ↦ simp e r
]

-- direction_for gives the source's role, `_to_` and the destination's role for every two roles: the
-- four cases that it tests give no other label than its last line does.
direction_for_lem :
    (src_role dst_role : Text)
    → direction_for src_role dst_role ≡ src_role ++ codes "_to_" ++ dst_role
unfolding direction_for
direction_for_lem src_role dst_role =
    special src_role dst_role (codes "badge") (codes "server") _ _ refl (
      special src_role dst_role (codes "server") (codes "badge") _ _ refl (
        special src_role dst_role (codes "badge") (codes "badge") _ _ refl
          (special src_role dst_role (codes "server") (codes "server") _ _ refl refl)))
