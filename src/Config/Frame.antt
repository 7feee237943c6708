-- ===== src/Config/Frame.antt =====
-- lib/include/hacpp/entity.h: what setting a property leaves as it was.
use hacpp.Base.{
  ◌≡◌, refl, ◌⊎◌, inl, inr, String, false, returned, threw, exhausted, Outcome, is_empty, str_eq,
  if◌then◌else◌, Bool-cases, Option-cases, eq_iff,
}
use hacpp.Config.{Property, set, at, contains}
use hacpp.Json.{Json, IsJson}

-- The key under which a property, or its object, is stored.
abbrev pub root : Property → String
root p = if is_empty p.obj_key then p.key else p.obj_key

-- Stored under different keys, or in the same object under different keys.
abbrev pub AreApart : Property → Property → Type 0
AreApart p q =
    (str_eq (root p) (root q) ≡ false)
    ⊎ (is_empty p.obj_key ≡ false) × (q.obj_key ≡ p.obj_key) × (str_eq p.key q.key ≡ false)

-- If a configuration results, it reads and contains the property as before.
abbrev pub Leaves : (J : Json) → Property → J.Object → Outcome J.Object → Type 0
Leaves J q o (returned o') = (at J q o' ≡ at J q o) × (contains J q o' ≡ contains J q o)
Leaves J q o m = Unit

module _ (J : Json) (laws : IsJson J) where
  open laws use {find-assign, find-empty, as_object-object}

  same_root :
      (q : Property) (o o' : J.Object)
      → J.find o' (root q) ≡ J.find o (root q)
      → (at J q o' ≡ at J q o) × (contains J q o' ≡ contains J q o)
  unfolding at contains
  same_root q o o' e = elim (Bool-cases (is_empty q.obj_key)) [
    | inl flat ↦ let e' = rw flat at e in (rw (flat, e') refl, rw (flat, e') refl)
    | inr nested ↦ let e' = rw nested at e in (rw (nested, e') refl, rw (nested, e') refl)
  ]

  abbrev Keeps : String → J.Object → Outcome J.Object → Type 0
  Keeps j o (returned o') = J.find o' j ≡ J.find o j
  Keeps j o m = Unit

  set-Keeps :
      (p : Property) (v j : String) (o : J.Object)
      → str_eq (root p) j ≡ false
      → Keeps j o (set J p v o)
  unfolding set
  set-Keeps p v j o ne = elim (Bool-cases (is_empty p.obj_key)) [
    | inl flat ↦ rw (flat, find-assign, rw flat at ne) refl
    | inr nested ↦
        let ne' = rw nested at ne in
        elim (Option-cases (J.find o p.obj_key)) [
          | inl new ↦
              rw (nested, new, find-assign, (eq_iff p.obj_key p.obj_key).1 refl, as_object-object)
                (rw (find-assign, ne', find-assign, ne') refl)
          | inr (x, old) ↦ elim (Option-cases (J.as_object x)) [
            | inl bad ↦ rw (nested, old, old, bad) tt
            | inr (i, good) ↦ rw (nested, old, old, good) (rw (find-assign, ne') refl)
          ]
        ]
  ]

  Keeps-Leaves :
      (q : Property) (o : J.Object) (m : Outcome J.Object) → Keeps (root q) o m → Leaves J q o m
  Keeps-Leaves q o (returned o') e = same_root q o o' e
  Keeps-Leaves q o (threw x) e = tt
  Keeps-Leaves q o exhausted e = tt

  -- In the same object: `k` is the property's key there, and `j` the other's.
  inside :
      (p : Property) (v : String) (q : Property) (o : J.Object)
      → is_empty p.obj_key ≡ false
      → q.obj_key ≡ p.obj_key
      → str_eq p.key q.key ≡ false
      → Leaves J q o (set J p v o)
  unfolding set at contains
  inside p v q o nested same ne =
      let hit = (eq_iff p.obj_key p.obj_key).1 refl in
      elim (Option-cases (J.find o p.obj_key)) [
        | inl new ↦
            rw (nested, new, find-assign, hit, as_object-object)
              (
                rw
                    (
                      same, nested, find-assign, hit, as_object-object, find-assign, ne, find-empty,
                      new,
                    )
                    refl,
                rw
                    (
                      same, nested, find-assign, hit, as_object-object, find-assign, ne, find-empty,
                      new,
                    )
                    refl,
              )
        | inr (x, old) ↦ elim (Option-cases (J.as_object x)) [
          | inl bad ↦ rw (nested, old, old, bad) tt
          | inr (i, good) ↦
              rw (nested, old, old, good)
                (
                  rw (same, nested, find-assign, hit, as_object-object, find-assign, ne, old, good)
                      refl,
                  rw (same, nested, find-assign, hit, as_object-object, find-assign, ne, old, good)
                      refl,
                )
        ]
      ]

-- With JSON as documented, setting a property to a text leaves every property that is stored apart
-- from it as it was, to be read and to be contained, errors included.
pub set-Leaves :
    (J : Json) (p q : Property) (v : String) (o : J.Object)
    → IsJson J
    → AreApart p q
    → Leaves J q o (set J p v o)
set-Leaves J p q v o laws (inl ne) =
    Keeps-Leaves J laws q o (set J p v o) (set-Keeps J laws p v (root q) o ne)
set-Leaves J p q v o laws (inr (nested, same, ne)) = inside J laws p v q o nested same ne
