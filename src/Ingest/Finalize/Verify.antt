-- ===== src/Ingest/Finalize/Verify.antt =====
-- What the part of `finalize_upload_to_pcaps` after the rename does.
use mathlib.Core.Path.{ap, subst}
use srhc_observability_claud.Prelude.{
  ◌∙◌, ◌≡◌, Option, none, Bool, true, false, refl, ◌⊎◌, inl, inr, arith, Bool-cases,
}
use srhc_observability_claud.Prelude.Text.{text_eq_iff, Text}
use srhc_observability_claud.Ingest.Container.{Bytes}
use srhc_observability_claud.Ingest.Finalize.{text_eq, verify_bytes, finish, remove, fail, verify}
use srhc_observability_claud.Ingest.Finalize.Types.{
  Removal, missing, denied, found, unlinked, gone, refused, Removal, unlinked,
  promotion_hash_mismatch, found, finalized, failed, same_inode, promotion_copy_failed, Stat, Calls,
  Paths, Result, Category, Final,
}

pub verify-unread :
    (sha256 : Bytes → Text) (calls : Calls) (fd : Stat) (bytes : Bytes) (p : Paths)
    → calls.read_back ≡ false
    → verify sha256 calls fd bytes p ≡ fail promotion_copy_failed p
unfolding verify
verify-unread sha256 calls fd bytes p e = simp (verify, e)

pub verify-read :
    (sha256 : Bytes → Text) (calls : Calls) (fd : Stat) (bytes : Bytes) (p : Paths)
    → calls.read_back ≡ true
    → verify sha256 calls fd bytes p ≡ verify_bytes sha256 calls fd bytes calls.stored p
unfolding verify
verify-read sha256 calls fd bytes p e = simp (verify, e)

-- If the hashes differ, the function fails without a change to the source.
pub verify_bytes_cases :
    (sha256 : Bytes → Text) (calls : Calls) (fd : Stat) (bytes back : Bytes) (p : Paths)
    → ((sha256 back ≡ sha256 bytes)
        × (verify_bytes sha256 calls fd bytes back p
            ≡ remove calls.final_stat fd (sha256 back) calls.removal p))
      ⊎ ((c : Category) × (d : Option Final) × (verify_bytes sha256 calls fd bytes back p
            ≡ fail c (record p { destination = d })))
unfolding verify_bytes
verify_bytes_cases sha256 calls fd bytes back p =
    elim (Bool-cases (text_eq (sha256 back) (sha256 bytes))) [
      | inl e ↦ inl ((text_eq_iff (sha256 back) (sha256 bytes)).0 e, simp (verify_bytes, e))
      | inr e ↦ elim (Bool-cases calls.final_unlinked) [
        | inl f ↦ inr (promotion_hash_mismatch, none, simp (verify_bytes, e, f))
        | inr f ↦ inr (promotion_copy_failed, p.destination, simp (verify_bytes, e, f))
      ]
    ]

pub remove_finalized :
    (ok : Bool) (fd : Stat) (r : Removal) (p : Paths) (given sum : Text) (removed : Bool)
    → (remove ok fd given r p).outcome ≡ finalized sum removed
    → (sum ≡ given) × ((remove ok fd given r p).paths.destination ≡ p.destination)
unfolding remove finish
remove_finalized ok fd r p given sum removed h = ground arith

pub fail_not_finalized :
    (c : Category) (p : Paths) (r : Result) (sum : Text) (removed : Bool)
    → r ≡ fail c p
    → r.outcome ≡ finalized sum removed
    → ⊥
fail_not_finalized c p r sum removed e h = cc

pub verify_finalized :
    (sha256 : Bytes → Text) (calls : Calls) (fd : Stat) (bytes : Bytes) (p : Paths) (sum : Text)
    (removed : Bool)
    → (verify sha256 calls fd bytes p).outcome ≡ finalized sum removed
    → (sum ≡ sha256 bytes)
      × (sha256 calls.stored ≡ sha256 bytes)
      × ((verify sha256 calls fd bytes p).paths.destination ≡ p.destination)
verify_finalized sha256 calls fd bytes p sum removed h = elim (Bool-cases calls.read_back) [
  | inr e ↦
      elim (fail_not_finalized promotion_copy_failed p _ sum removed
        (verify-unread sha256 calls fd bytes p e) h) [ ]
  | inl e ↦
      let v = verify-read sha256 calls fd bytes p e in
      elim (verify_bytes_cases sha256 calls fd bytes calls.stored p) [
        | inl (same, r) ↦
            let f =
              remove_finalized calls.final_stat fd calls.removal p (sha256 calls.stored) sum removed
                (subst (λ x. x.outcome ≡ finalized sum removed) (v ∙ r) h) in
            (f.0 ∙ same, same, ap (λ x. x.paths.destination) (v ∙ r) ∙ f.1)
        | inr (c, d, r) ↦
            elim (fail_not_finalized c (record p { destination = d }) _ sum removed (v ∙ r) h) [ ]
      ]
]

-- The destination is left as it is, and then the hashes agree, or it could not be read or not be
-- removed; or the hashes differ and it is removed.
abbrev pub DestinationCases : (Bytes → Text) → Calls → Bytes → Paths → Result → Type 0
DestinationCases sha256 calls bytes p r =
    ((r.paths.destination ≡ p.destination)
      × ((sha256 calls.stored ≡ sha256 bytes)
          ⊎ ((calls.read_back ≡ false) ⊎ (calls.final_unlinked ≡ false))))
    ⊎ ((r.paths.destination ≡ none)
        × (r.outcome ≡ failed promotion_hash_mismatch)
        × (text_eq (sha256 calls.stored) (sha256 bytes) ≡ false))

remove_destination :
    (ok : Bool) (fd : Stat) (sum : Text) (r : Removal) (p : Paths)
    → (remove ok fd sum r p).paths.destination ≡ p.destination
unfolding remove finish
remove_destination ok fd sum r p = ground arith

pub verify_destination :
    (sha256 : Bytes → Text) (calls : Calls) (fd : Stat) (bytes : Bytes) (p : Paths)
    → DestinationCases sha256 calls bytes p (verify sha256 calls fd bytes p)
unfolding verify verify_bytes
verify_destination sha256 calls fd bytes p = elim (Bool-cases calls.read_back) [
  | inr e ↦ simp e (inl (refl, inr (inl refl)))
  | inl e ↦ elim (Bool-cases (text_eq (sha256 calls.stored) (sha256 bytes))) [
    | inl g ↦
        simp (e, g)
          (inl (
            remove_destination calls.final_stat fd (sha256 calls.stored) calls.removal p,
            inl ((text_eq_iff (sha256 calls.stored) (sha256 bytes)).0 g),
          ))
    | inr g ↦ elim (Bool-cases calls.final_unlinked) [
      | inl f ↦ simp (e, g, f) (inr (refl, refl, refl))
      | inr f ↦ simp (e, g, f) (inl (refl, inr (inr refl)))
    ]
  ]
]

pub verify_temp :
    (sha256 : Bytes → Text) (calls : Calls) (fd : Stat) (bytes : Bytes) (p : Paths)
    → (verify sha256 calls fd bytes p).paths.temp ≡ p.temp
unfolding verify remove finish
verify_temp sha256 calls fd bytes p = ground arith

pub remove_unlinked :
    (ok : Bool) (fd : Stat) (sum : Text) (r : Removal) (p : Paths)
    → p.source_unlinked ≡ false
    → (remove ok fd sum r p).paths.source_unlinked ≡ true
    → ((remove ok fd sum r p).paths.destination ≡ p.destination)
      × ((now : Stat) × (r ≡ found now unlinked) × (same_inode fd now ≡ true))
unfolding remove finish same_inode
remove_unlinked ok fd sum missing p h u = ground arith
remove_unlinked ok fd sum denied p h u = ground arith
remove_unlinked ok fd sum (found now unlinked) p h u = (ground arith, (now, refl, ground arith))
remove_unlinked ok fd sum (found now gone) p h u = ground arith
remove_unlinked ok fd sum (found now refused) p h u = ground arith

pub fail_not_unlinked :
    (c : Category) (p : Paths) (r : Result)
    → p.source_unlinked ≡ false
    → r ≡ fail c p
    → r.paths.source_unlinked ≡ true
    → ⊥
fail_not_unlinked c p r h e u = cc

pub verify_unlinked :
    (sha256 : Bytes → Text) (calls : Calls) (fd : Stat) (bytes : Bytes) (p : Paths)
    → p.source_unlinked ≡ false
    → (verify sha256 calls fd bytes p).paths.source_unlinked ≡ true
    → (sha256 calls.stored ≡ sha256 bytes)
      × ((verify sha256 calls fd bytes p).paths.destination ≡ p.destination)
      × ((now : Stat) × (calls.removal ≡ found now unlinked) × (same_inode fd now ≡ true))
verify_unlinked sha256 calls fd bytes p h u = elim (Bool-cases calls.read_back) [
  | inr e ↦
      elim (fail_not_unlinked promotion_copy_failed p _ h (verify-unread sha256 calls fd bytes p e)
        u) [ ]
  | inl e ↦
      let v = verify-read sha256 calls fd bytes p e in
      elim (verify_bytes_cases sha256 calls fd bytes calls.stored p) [
        | inl (same, r) ↦
            let f =
              remove_unlinked calls.final_stat fd (sha256 calls.stored) calls.removal p h
                (subst (λ x. x.paths.source_unlinked ≡ true) (v ∙ r) u) in
            (same, ap (λ x. x.paths.destination) (v ∙ r) ∙ f.0, f.1)
        | inr (c, d, r) ↦
            elim (fail_not_unlinked c (record p { destination = d }) _ h (v ∙ r) u) [ ]
      ]
]
