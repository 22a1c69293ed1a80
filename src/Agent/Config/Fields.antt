-- ===== src/Agent/Config/Fields.antt =====
-- The fields that the configuration gives (load_params of agent/config_loader.py).
use rover_mind.Prelude.{
  String, ◌≡◌, refl, sym, ap, ◌∙◌, inl, inr, Option, none, some, str_eq, Bool-cases, str_eq→eq,
}
use rover_mind.Prelude.Io.{ok, ok-inj}
use rover_mind.Bridge.Values.{Value, Members, no_members, member, get, get_or, members_of}
use rover_mind.Agent.Config.{Texts, filtered, filled, unknown_key, construct, built_of}

module _ {R : Type 0} where
  -- A field's value, by its default and by its entry in the file.
  abbrev pub field_of : Option (Value R) → Option (Value R) → Option (Value R)
  field_of none entry = none
  field_of (some default) none = some default
  field_of (some default) (some v) = some v

  -- The entry at a key, where there is a dict that has one.
  abbrev pub in_dict : String → Value R → Option (Value R)
  in_dict key v = elim (members_of v) [ none ↦ none | some o ↦ get key o ]

  abbrev pub in_section : String → Option (Value R) → Option (Value R)
  in_section key none = none
  in_section key (some v) = in_dict key v

  field_chosen :
      (default : Value R) (found : Option (Value R)) (v : Value R)
      → v ≡ elim found [ none ↦ default | some x ↦ x ]
      → some v ≡ field_of (some default) found
  field_chosen default none v h = ap some h
  field_chosen default (some x) v h = ap some h

  get-filled :
      (key : String) (cls values : Members R)
      → get key (filled cls values) ≡ field_of (get key cls) (get key values)
  unfolding get filled
  get-filled key no_members values = refl
  get-filled key (member k default rest) values = elim (Bool-cases (str_eq k key)) [
    | inl same ↦ rw same (
        field_chosen default (get key values) (get_or k default values)
          (ap (λ x. get_or x default values) (str_eq→eq k key same)))
    | inr other ↦ rw other (get-filled key rest values)
  ]

  -- The filter on one key: it is kept where it is known.
  get-kept :
      (key k : String) (v : Value R) (known later rest : Members R) (found : Option (Value R))
      (default : Value R)
      → get k known ≡ found
      → get key known ≡ some default
      → get key later ≡ get key rest
      → get key (elim found [ none ↦ later | some d ↦ member k v later ])
        ≡ get key (member k v rest)
  unfolding get
  get-kept key k v known later rest (some d) default at here ih = rw ih refl
  get-kept key k v known later rest none default at here ih = elim (Bool-cases (str_eq k key)) [
    | inl same ↦
        let moved : get k known ≡ get key known = ap (λ x. get x known) (str_eq→eq k key same) in
        absurd (cc)
    | inr other ↦ rw other ih
  ]

  get-filtered :
      (key : String) (known given : Members R) (default : Value R)
      → get key known ≡ some default
      → get key (filtered known given) ≡ get key given
  unfolding get filtered
  get-filtered key known no_members default h = refl
  get-filtered key known (member k v rest) default h =
      get-kept key k v known (filtered known rest) rest (get k known) default refl h
        (get-filtered key known rest default h)

  known_or_not :
      (key : String) (cls given : Members R) (found : Option (Value R))
      → get key cls ≡ found
      → field_of found (get key (filtered cls given)) ≡ field_of found (get key given)
  known_or_not key cls given none h = refl
  known_or_not key cls given (some default) h =
      ap (field_of (some default)) (get-filtered key cls given default h)

  kept-known :
      (k : String) (v : Value R) (known later : Members R) (found : Option (Value R))
      → get k known ≡ found
      → unknown_key known later ≡ none
      → unknown_key known (elim found [ none ↦ later | some d ↦ member k v later ]) ≡ none
  unfolding unknown_key
  kept-known k v known later none at h = h
  kept-known k v known later (some d) at h = rw (at, unknown_key) h

  -- What the filter leaves are fields.
  filtered-known : (known given : Members R) → unknown_key known (filtered known given) ≡ none
  unfolding unknown_key filtered get
  filtered-known known no_members = refl
  filtered-known known (member k v rest) =
      kept-known k v known (filtered known rest) (get k known) refl (filtered-known known rest)

  -- A dict builds the object of its fields, whatever else it holds.
  pub built_of-dict :
      (texts : Texts R) (cls given : Members R) (v : Value R)
      → built_of texts cls v (some given) ≡ ok (filled cls (filtered cls given))
  unfolding built_of construct
  built_of-dict texts cls given v = rw (filtered-known cls given, construct) refl

  no_dict :
      (texts : Texts R) (cls built : Members R) (v : Value R)
      → ¬ (built_of texts cls v none ≡ ok built)
  unfolding built_of
  no_dict texts cls built v h = cc

  pub get-built_of :
      (texts : Texts R) (key : String) (cls built : Members R) (v : Value R)
      (found : Option (Members R))
      → members_of v ≡ found
      → built_of texts cls v found ≡ ok built
      → (given : Members R) × (members_of v ≡ some given)
        × (get key built ≡ field_of (get key cls) (get key given))
  get-built_of texts key cls built v none at h = absurd (no_dict texts cls built v h)
  get-built_of texts key cls built v (some given) at h = (
    given,
    at,
    ap (get key) (
          sym (
            ok-inj (filled cls (filtered cls given)) built
              (sym (built_of-dict texts cls given v) ∙ h)))
        ∙ get-filled key cls (filtered cls given)
        ∙ known_or_not key cls given (get key cls) refl,
  )
