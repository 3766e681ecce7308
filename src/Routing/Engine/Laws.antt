-- ===== src/Routing/Engine/Laws.antt =====
-- The laws of `ResolveRecipients` of internal/routing/engine.go.
use vectorcore_mmsc.Base.{
  ℕ, List, [], ◌∷◌, All, true, false, not, ◌&&◌, Bool-cases, Error, Result, ok, err, Result-cases,
  ◌≡◌, inl, inr, refl, ap, sym, subst, ◌∙◌, arith,
}
use vectorcore_mmsc.Routing.Peer.{Repository}
use vectorcore_mmsc.Routing.Engine.{
  Destination, unknown, local, mm4, mm3, reject, same_destination, Resolution, resolve, same_peer,
  Query, all_reject, all_same, resolve_recipients,
}

same_destination→eq : (a b : Destination) → same_destination a b ≡ true → a ≡ b
same_destination→eq unknown unknown h = refl
same_destination→eq local local h = refl
same_destination→eq mm4 mm4 h = refl
same_destination→eq mm3 mm3 h = refl
same_destination→eq reject reject h = refl
same_destination→eq _ _ h = absurd (cc)

same_destination_self : (a : Destination) → same_destination a a ≡ true
same_destination_self unknown = refl
same_destination_self local = refl
same_destination_self mm4 = refl
same_destination_self mm3 = refl
same_destination_self reject = refl

-- The query resolves to the same destination, and if that is MM4, to the same peer.
abbrev pub Agrees : Resolution → Query → Type 0
Agrees first (repo, address) =
    (next : Resolution) × (resolve repo address ≡ ok next)
    × (next.destination ≡ first.destination)
    × (same_destination first.destination mm4 ≡ true → same_peer first.peer next.peer ≡ true)

ok_eq : (x y : Resolution) → ◌≡◌ {A = Result Resolution} (ok x) (ok y) → x ≡ y
ok_eq x y e = cc

err_not_ok : {r : Resolution} {x : Error} → ◌≡◌ {A = Result Resolution} (err x) (ok r) → ⊥
err_not_ok h = cc

not_both : (d : Destination) → same_destination d reject ≡ true → same_destination d mm4 ≡ true → ⊥
not_both unknown h k = cc
not_both local h k = cc
not_both mm4 h k = cc
not_both mm3 h k = cc
not_both reject h k = cc

all_reject-agree :
    (first res : Resolution) (queries : List Query)
    → same_destination first.destination reject ≡ true
    → all_reject first queries ≡ ok res
    → (first ≡ res) × All (Agrees first) queries
unfolding all_reject
all_reject-agree first res [] rejected e = (ok_eq first res e, tt)
all_reject-agree first res ((repo, address) ∷ queries) rejected e =
    elim (Result-cases (resolve repo address)) [
      | inl (next, found) ↦ elim (Bool-cases (same_destination next.destination reject)) [
        | inl same ↦
            let (eq, others) =
              all_reject-agree first res queries rejected (rw (found, same) at e) in
            (
              eq,
              (
                (
                  next,
                  found,
                  same_destination→eq _ _ same ∙ sym (same_destination→eq _ _ rejected),
                  λ m. absurd (not_both first.destination rejected m),
                ),
                others,
              ),
            )
        | inr differs ↦ absurd (err_not_ok (rw (found, differs) at e))
      ]
      | inr (x, failed) ↦ absurd (err_not_ok (rw failed at e))
    ]

all_same-agree :
    (first res : Resolution) (queries : List Query)
    → all_same first queries ≡ ok res
    → (first ≡ res) × All (Agrees first) queries
unfolding all_same
all_same-agree first res [] e = (ok_eq first res e, tt)
all_same-agree first res ((repo, address) ∷ queries) e =
    elim (Result-cases (resolve repo address)) [
      | inl (next, found) ↦ elim (Bool-cases (same_destination next.destination reject)) [
        | inl rejected ↦ absurd (err_not_ok (rw (found, rejected) at e))
        | inr kept ↦ elim (Bool-cases (same_destination first.destination next.destination)) [
          | inl same ↦
              elim (Bool-cases
                (same_destination first.destination mm4 && not (same_peer first.peer next.peer))) [
                  | inl two ↦ absurd (err_not_ok (rw (found, kept, same, two) at e))
                  | inr one ↦
                      let (eq, others) =
                        all_same-agree first res queries (rw (found, kept, same, one) at e) in
                      (
                        eq,
                        (
                          (next, found, sym (same_destination→eq _ _ same), λ m. ground arith),
                          others,
                        ),
                      )
                ]
          | inr differs ↦ absurd (err_not_ok (rw (found, kept, differs) at e))
        ]
      ]
      | inr (x, failed) ↦ absurd (err_not_ok (rw failed at e))
    ]

all_reject-same :
    (first : Resolution) (queries : List Query)
    → same_destination first.destination reject ≡ true
    → All (Agrees first) queries
    → all_reject first queries ≡ ok first
unfolding all_reject
all_reject-same first [] rejected h = refl
all_reject-same first ((repo, address) ∷ queries) rejected ((next, found, same, peers), h) =
    let also : same_destination next.destination reject ≡ true = rw same rejected in
    rw (found, also) (all_reject-same first queries rejected h)

all_same-same :
    (first : Resolution) (queries : List Query)
    → same_destination first.destination reject ≡ false
    → All (Agrees first) queries
    → all_same first queries ≡ ok first
unfolding all_same
all_same-same first [] kept h = refl
all_same-same first ((repo, address) ∷ queries) kept ((next, found, same, peers), h) =
    let also : same_destination next.destination reject ≡ false = rw same kept in
    let both : same_destination first.destination next.destination ≡ true =
      rw same (same_destination_self first.destination) in
    let one : (same_destination first.destination mm4 && not (same_peer first.peer next.peer))
        ≡ false =
      ground arith in
    rw (found, also, both, one) (all_same-same first queries kept h)

resolve_recipients-first :
    (repo : Repository) (address : List ℕ) (queries : List Query) (res : Resolution)
    → resolve_recipients ((repo, address) ∷ queries) ≡ ok res
    → (resolve repo address ≡ ok res) × All (Agrees res) queries
unfolding resolve_recipients
resolve_recipients-first repo address queries res e = elim (Result-cases (resolve repo address)) [
  | inl (first, found) ↦ elim (Bool-cases (same_destination first.destination reject)) [
    | inl rejected ↦
        let (eq, h) = all_reject-agree first res queries rejected (rw (found, rejected) at e) in
        (found ∙ ap ok eq, subst (λ r. All (Agrees r) queries) eq h)
    | inr kept ↦
        let (eq, h) = all_same-agree first res queries (rw (found, kept) at e) in
        (found ∙ ap ok eq, subst (λ r. All (Agrees r) queries) eq h)
  ]
  | inr (x, failed) ↦ absurd (err_not_ok (rw failed at e))
]

resolve_recipients-All :
    (repo : Repository) (address : List ℕ) (queries : List Query) (res : Resolution)
    → resolve repo address ≡ ok res
    → All (Agrees res) queries
    → resolve_recipients ((repo, address) ∷ queries) ≡ ok res
unfolding resolve_recipients
resolve_recipients-All repo address queries res found h =
    elim (Bool-cases (same_destination res.destination reject)) [
      | inl rejected ↦ rw (found, rejected) (all_reject-same res queries rejected h)
      | inr kept ↦ rw (found, kept) (all_same-same res queries kept h)
    ]

-- The recipients of a message resolve to a result if and only if the first resolves to it and
-- each other one to the same destination, and to the same peer where that is MM4.
pub resolve_recipients-agree :
    (query : Query) (queries : List Query) (res : Resolution)
    → (resolve_recipients (query ∷ queries) ≡ ok res
        → (resolve query.0 query.1 ≡ ok res) × All (Agrees res) queries)
      × ((resolve query.0 query.1 ≡ ok res) × All (Agrees res) queries
          → resolve_recipients (query ∷ queries) ≡ ok res)
resolve_recipients-agree (repo, address) queries res = (
  resolve_recipients-first repo address queries res,
  λ h. resolve_recipients-All repo address queries res h.0 h.1,
)
