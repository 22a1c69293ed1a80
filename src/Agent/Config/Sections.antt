-- ===== src/Agent/Config/Sections.antt =====
-- The sections of the configuration file (load_params of agent/config_loader.py).
use rover_mind.Prelude.{
  String, Bool, ◌≡◌, refl, sym, ap, ◌∙◌, ◌⊎◌, inl, inr, true, false, Option, none, some,
  if◌then◌else◌, subst,
}
use rover_mind.Prelude.Io.{Result, ok, err, mapped, ok-inj}
use rover_mind.Float.{Float}
use rover_mind.Bridge.Values.{
  Value, null, boolean, int, float, text, array, object, Members, no_members, member, Interpreter,
  get, members_of, is_truthy,
}
use rover_mind.Agent.Config.{
  Texts, filtered, filled, build, agent_fields, action_fields, or_empty, section, sections,
  read_params, load_params,
}
use rover_mind.Agent.Config.Fields.{field_of, in_dict, in_section, built_of-dict, get-built_of}

module _ {R : Type 0} ⦃f : Float R⦄ where
  falls_back :
      (b : Bool) (v : Value R) (o : Members R)
      → members_of v ≡ none
      → members_of (if b then v else object no_members) ≡ some o
      → (members_of v ≡ some o) ⊎ ((members_of v ≡ none) × (o ≡ no_members))
  falls_back true v o at h = absurd (cc)
  falls_back false v o at h = inr (at, cc)

  -- What `or` lets through is the dict itself, or the empty one in place of what is none.
  or_empty-members :
      (v : Value R) (o : Members R)
      → members_of (or_empty v) ≡ some o
      → (members_of v ≡ some o) ⊎ ((members_of v ≡ none) × (o ≡ no_members))
  or_empty-members (object no_members) o h = inl h
  or_empty-members (object (member k v rest)) o h = inl h
  or_empty-members null o h = falls_back false null o refl h
  or_empty-members (boolean b) o h = falls_back b (boolean b) o refl h
  or_empty-members (int n) o h = falls_back (is_truthy {R = R} (int n)) (int n) o refl h
  or_empty-members (float x) o h = falls_back (is_truthy (float x)) (float x) o refl h
  or_empty-members (text t) o h = falls_back (is_truthy {R = R} (text t)) (text t) o refl h
  or_empty-members (array xs) o h = falls_back (is_truthy (array xs)) (array xs) o refl h

  get-or_empty :
      (key : String) (cls built given : Members R) (v : Value R)
      → members_of (or_empty v) ≡ some given
      → get key built ≡ field_of (get key cls) (get key given)
      → get key built ≡ field_of (get key cls) (in_dict key v)
  unfolding get
  get-or_empty key cls built given v at h = elim (or_empty-members v given at) [
    | inl there ↦ rw (there, in_dict) h
    | inr (none_there, empty) ↦
        rw (none_there, in_dict)
          (subst (λ g. get key built ≡ field_of (get key cls) (get key g)) empty h)
  ]

  module _ (texts : Texts R) (key : String) (cls built : Members R) where
    get-build :
        (v : Value R)
        → build texts cls (or_empty v) ≡ ok built
        → get key built ≡ field_of (get key cls) (in_dict key v)
    unfolding build
    get-build v h =
        let (given, at, got) =
          get-built_of texts key cls built (or_empty v) (members_of (or_empty v)) refl h in
        get-or_empty key cls built given v at got

    get-found :
        (found : Option (Value R))
        → build texts cls (or_empty (elim found [ none ↦ object no_members | some v ↦ v ]))
          ≡ ok built
        → get key built ≡ field_of (get key cls) (in_section key found)
    unfolding get
    get-found none h = get-build (object no_members) h
    get-found (some v) h = get-build v h

  -- Each section is filled from the dict of the file.
  abbrev pub Filled : Members R → Members R × Members R → Type 0
  Filled raw (agent, actions) =
      (key : String)
      → (get key agent ≡ field_of (get key agent_fields) (in_section key (get "agent" raw)))
        × (get key actions ≡ field_of (get key action_fields) (in_section key (get "actions" raw)))

  sections-Filled :
      (texts : Texts R) (raw : Members R) (r s : Result (Members R)) (both : Members R × Members R)
      → section texts agent_fields "agent" raw ≡ r
      → section texts action_fields "actions" raw ≡ s
      → mapped (λ agent. mapped (λ actions. ok (agent, actions)) s) r ≡ ok both
      → Filled raw both
  unfolding section
  sections-Filled texts raw (err e) s both er es h key = absurd (cc)
  sections-Filled texts raw (ok x) (err e) both er es h key = absurd (cc)
  sections-Filled texts raw (ok x) (ok y) (agent, actions) er es h key =
      let same = ok-inj (x, y) (agent, actions) h in
      (
        get-found texts key agent_fields agent (get "agent" raw) (er ∙ ap (λ p. ok p.0) same),
        get-found texts key action_fields actions (get "actions" raw) (es ∙ ap (λ p. ok p.1) same),
      )

  -- The dict that the file holds, or the empty one.
  abbrev pub file_members : Value R → Members R
  file_members v = elim (members_of v) [ none ↦ no_members | some raw ↦ raw ]

  file_members_lem :
      (v : Value R) (raw : Members R) → members_of (or_empty v) ≡ some raw → raw ≡ file_members v
  file_members_lem v raw at = elim (or_empty-members v raw at) [
    | inl there ↦ rw (there, file_members) refl
    | inr (none_there, empty) ↦ rw (none_there, file_members) empty
  ]

  read_params-Filled :
      (py : Interpreter R) (texts : Texts R) (v : Value R) (found : Option (Members R))
      (both : Members R × Members R)
      → members_of (or_empty v) ≡ found
      → read_params texts py (or_empty v) found ≡ ok both
      → Filled (file_members v) both
  unfolding read_params sections
  read_params-Filled py texts v none both at h = absurd (cc)
  read_params-Filled py texts v (some raw) both at h =
      subst (λ r. Filled r both) (file_members_lem v raw at)
        (sections-Filled texts raw (section texts agent_fields "agent" raw)
          (section texts action_fields "actions" raw) both refl refl h)

  -- A value that is a dict, or that `or {}` replaces by one.
  abbrev pub IsDict : Value R → Type 0
  IsDict v = (o : Members R) × (members_of (or_empty v) ≡ some o)

  abbrev pub IsSection : Option (Value R) → Type 0
  IsSection none = Unit
  IsSection (some v) = IsDict v

  -- The file holds nothing or a dict, and so does each of its two sections, where it is there.
  abbrev pub IsLoadable : Value R → Type 0
  IsLoadable v =
      IsDict v
      × IsSection (get "agent" (file_members v))
      × IsSection (get "actions" (file_members v))

  module _ (texts : Texts R) where
    build-dict :
        (cls : Members R) (v : Value R)
        → IsDict v
        → (built : Members R) × (build texts cls (or_empty v) ≡ ok built)
    unfolding build
    build-dict cls v (o, at) =
        (filled cls (filtered cls o), rw at (built_of-dict texts cls o (or_empty v)))

    build-found :
        (cls : Members R) (found : Option (Value R))
        → IsSection found
        → (built : Members R) × (build texts cls
              (or_empty (elim found [ none ↦ object no_members | some v ↦ v ]))
            ≡ ok built)
    build-found cls none h = build-dict cls (object no_members) (no_members, refl)
    build-found cls (some v) h = build-dict cls v h

    sections-dicts :
        (raw : Members R)
        → IsSection (get "agent" raw)
        → IsSection (get "actions" raw)
        → (both : Members R × Members R) × (sections texts raw ≡ ok both)
    unfolding sections section
    sections-dicts raw agent actions =
        let (built, builds) = build-found agent_fields (get "agent" raw) agent in
        let (built', builds') = build-found action_fields (get "actions" raw) actions in
        ((built, built'), rw (builds, builds') refl)

    read_params-dicts :
        (py : Interpreter R) (v : Value R) (raw : Members R)
        → raw ≡ file_members v
        → IsSection (get "agent" (file_members v))
        → IsSection (get "actions" (file_members v))
        → (both : Members R × Members R) × (read_params texts py (or_empty v) (some raw) ≡ ok both)
    unfolding read_params
    read_params-dicts py v raw same agent actions =
        subst (λ (r : Members R). (both : Members R × Members R) × (sections texts r ≡ ok both))
          (sym same) (sections-dicts (file_members v) agent actions)

  -- A file that is there, and that holds nothing or a dict whose two sections hold nothing or a dict
  -- where they are there, loads, whatever other keys it has: each field of either class has its entry
  -- in the class's section of the file, and its default where the section has none; so an empty file
  -- gives the defaults.
  pub load_params-Filled :
      (py : Interpreter R) (texts : Texts R) (path : String) (v : Value R)
      → IsLoadable v
      → (both : Members R × Members R) × (load_params texts py path true (ok v) ≡ ok both)
        × Filled (file_members v) both
  unfolding load_params
  load_params-Filled py texts path v ((raw, at), agent, actions) =
      let (both, reads) =
        read_params-dicts texts py v raw (file_members_lem v raw at) agent actions in
      let loads : read_params texts py (or_empty v) (members_of (or_empty v)) ≡ ok both =
        rw at reads in
      (both, loads, read_params-Filled py texts v (members_of (or_empty v)) both refl loads)
