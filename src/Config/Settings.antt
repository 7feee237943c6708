-- ===== src/Config/Settings.antt =====
-- lib/include/hacpp/entity.h: a configuration after any number of settings, and their latest.
use hacpp.Base.{
  ◌≡◌, refl, ap, ◌∙◌, String, true, false, Option, none, some, is_some, List, [], ◌∷◌, All, Outcome,
  ◌>>=◌, returned, threw, wrong_kind, is_empty, str_eq, eq_iff, if◌then◌else◌, Bool-cases,
  Option-cases, inl, inr,
}
use hacpp.Config.{Property, property, Device, set, set_device, at, contains}
use hacpp.Json.{Json, IsJson}

-- A call of `set(prop, text)`, or of `set(device)`.
pub data Setting : Type 0 where
  sets_text : Property → String → Setting
  sets_device : Device → Setting

abbrev pub IsFlat : Setting → Type 0
IsFlat (sets_text p v) = is_empty p.obj_key ≡ true
IsFlat (sets_device d) = Unit

-- The properties are not nested.
abbrev pub AreFlat : List Setting → Type 0
AreFlat = All IsFlat

abbrev pub or_else : Option String → Option String → Option String
or_else none other = other
or_else (some v) other = some v

-- The last text that the key is set to.
abbrev pub latest : String → List Setting → Option String
latest k [] = none
latest k (sets_text p v ∷ ss) = or_else (latest k ss) (if str_eq p.key k then some v else none)
latest k (sets_device d ∷ ss) = latest k ss

abbrev pub get_or {ℓ} : {A : Type ℓ} → A → Option A → A
get_or default none = default
get_or default (some v) = v

-- The user's calls of the factory's `set`, in order.
abbrev pub set_all {ℓ} :
    {F : Type ℓ}
    → (Property → String → F → Outcome F)
    → (Device → F → Outcome F)
    → List Setting
    → F
    → Outcome F
set_all set set_device [] f = returned f
set_all set set_device (sets_text p v ∷ ss) f = set p v f >>= λ f. set_all set set_device ss f
set_all set set_device (sets_device d ∷ ss) f = set_device d f >>= λ f. set_all set set_device ss f

module _ (J : Json) where
  open J use {Object, Value, find, assign, string}

  abbrev pub assigned : List Setting → Object → Object
  assigned [] o = o
  assigned (sets_text p v ∷ ss) o = assigned ss (assign o p.key (string v))
  assigned (sets_device d ∷ ss) o = assigned ss (set_device J d o)

  -- A text unless there is a value already.
  abbrev pub defaulted : String → String → Object → Object
  defaulted k v o = if is_some (find o k) then o else assign o k (string v)

  -- The text, or what there was.
  abbrev pub text_or : Option String → Option Value → Option Value
  text_or none other = other
  text_or (some v) other = some (string v)

  -- A factory whose setters assign in its configuration, and leave the rest as it is.
  pub set_all-flat {ℓ} :
      {F : Type ℓ} (set : Property → String → F → Outcome F) (set_dev : Device → F → Outcome F)
      (build : Object → F)
      → ((p : Property) (v : String) (o : Object)
          → is_empty p.obj_key ≡ true
          → set p v (build o) ≡ returned (build (assign o p.key (string v))))
      → ((d : Device) (o : Object) → set_dev d (build o) ≡ returned (build (set_device J d o)))
      → (ss : List Setting) (o : Object) → AreFlat ss
      → set_all set set_dev ss (build o) ≡ returned (build (assigned ss o))
  set_all-flat set set_dev build law law' [] o flat = refl
  set_all-flat set set_dev build law law' (sets_text p v ∷ ss) o flat =
      rw (law p v o flat.0)
        (set_all-flat set set_dev build law law' ss (assign o p.key (string v)) flat.1)
  set_all-flat set set_dev build law law' (sets_device d ∷ ss) o flat =
      rw (law' d o) (set_all-flat set set_dev build law law' ss (set_device J d o) flat.1)

  module _ (laws : IsJson J) where
    open laws use {find-assign, as_string-string, as_string-null}

    -- Of a key that the device is not under.
    pub find-assigned :
        (k : String) (ss : List Setting) (o : Object)
        → str_eq "device" k ≡ false
        → find (assigned ss o) k ≡ text_or (latest k ss) (find o k)
    unfolding set_device
    find-assigned k [] o apart = refl
    find-assigned k (sets_device d ∷ ss) o apart =
        find-assigned k ss (set_device J d o) apart
        ∙ ap (text_or (latest k ss)) (rw (find-assign, apart) refl)
    find-assigned k (sets_text p v ∷ ss) o apart =
        find-assigned k ss (assign o p.key (string v)) apart ∙ found (latest k ss)
      where
        found :
            (l : Option String)
            → text_or l (find (assign o p.key (string v)) k)
              ≡ text_or (or_else l (if str_eq p.key k then some v else none)) (find o k)
        found (some w) = refl
        found none = elim (Bool-cases (str_eq p.key k)) [
          | inl hit ↦ rw (hit, find-assign, hit) refl
          | inr miss ↦ rw (miss, find-assign, miss) refl
        ]

    pub find-defaulted_other :
        (k v j : String) (o : Object) → str_eq k j ≡ false → find (defaulted k v o) j ≡ find o j
    find-defaulted_other k v j o differ = elim (Bool-cases (is_some (find o k))) [
      | inl there ↦ rw there refl
      | inr absent ↦ rw (absent, find-assign, differ) refl
    ]

    find-defaulted :
        (k v : String) (o : Object) → find (defaulted k v o) k ≡ some (get_or (string v) (find o k))
    find-defaulted k v o = elim (Option-cases (find o k)) [
      | inl absent ↦ rw (absent, find-assign, (eq_iff k k).1 refl) refl
      | inr (x, there) ↦ rw (there, there) refl
    ]

    pub at-text :
        (k v : String) (o : Object) → find o k ≡ some (string v) → at J (property k) o ≡ returned v
    unfolding at
    at-text k v o there = rw (there, as_string-string) refl

    pub at-null :
        (k : String) (o : Object) → find o k ≡ some J.null → at J (property k) o ≡ threw wrong_kind
    unfolding at
    at-null k o there = rw (there, as_string-null) refl

    -- A text that was set, or the default that is set where there is none.
    pub find-default :
        (k v : String) (l : Option String) (o : Object)
        → find o k ≡ text_or l none
        → find (defaulted k v o) k ≡ some (string (get_or v l))
    find-default k v none o absent = rw (find-defaulted k v o, absent) refl
    find-default k v (some w) o there = rw (find-defaulted k v o, there) refl

    pub text_or-text :
        (v : String) (l : Option String) (other : Option Value)
        → other ≡ some (string v)
        → text_or l other ≡ some (string (get_or v l))
    text_or-text v none other there = there
    text_or-text v (some w) other there = refl

    -- A text of the factory, after the settings.
    pub find-set :
        (k v : String) (ss : List Setting) (o : Object)
        → str_eq "device" k ≡ false
        → find o k ≡ some (string v)
        → find (assigned ss o) k ≡ some (string (get_or v (latest k ss)))
    find-set k v ss o apart there =
        find-assigned k ss o apart ∙ text_or-text v (latest k ss) (find o k) there

    pub at-set :
        (k v : String) (ss : List Setting) (o : Object)
        → str_eq "device" k ≡ false
        → find o k ≡ some (string v)
        → at J (property k) (assigned ss o) ≡ returned (get_or v (latest k ss))
    at-set k v ss o apart there =
        at-text k (get_or v (latest k ss)) (assigned ss o) (find-set k v ss o apart there)

    -- A value of the factory that the settings do not replace.
    pub find-unset :
        (k : String) (ss : List Setting) (o : Object)
        → str_eq "device" k ≡ false
        → latest k ss ≡ none
        → find (assigned ss o) k ≡ find o k
    find-unset k ss o apart unset = find-assigned k ss o apart ∙ rw unset refl

  -- `if (!cfg.contains(prop)) cfg.set(prop, default)`, for a property that is not nested.
  pub contains-flat :
      (k : String) (o : Object) → contains J (property k) o ≡ returned (is_some (find o k))
  unfolding contains
  contains-flat k o = refl

  pub set-flat :
      (k v : String) (o : Object) → set J (property k) v o ≡ returned (assign o k (string v))
  unfolding set
  set-flat k v o = refl
