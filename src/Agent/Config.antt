-- ===== src/Agent/Config.antt =====
-- The configuration (agent/config_loader.py) and the model factory (agent/llm.py). The YAML library, the
-- environment and the chat model's class are parameters. A dataclass object is the dict of its fields,
-- since the fields hold whatever values the file has; the keys of a dict are texts.
pub mod Fields
pub mod Sections
mod Tests
use rover_mind.Prelude.{
  String, Bool, true, false, not, Option, none, some, [], ◌∷◌, if◌then◌else◌, str_eq, concat,
}
use rover_mind.Prelude.Int.{pos}
use rover_mind.Prelude.Io.{Result, ok, err, exception, mapped}
use rover_mind.Float.{Float, nought}
use rover_mind.Bridge.Values.{
  Value, int, float, text, object, Members, no_members, member, Interpreter, get, get_or,
  members_of, is_truthy,
}
use rover_mind.Agent.{AgentParams, default_action_params, default_agent_params}

-- The texts of two errors of Python: of a value that has no `items`, and of an unexpected keyword.
pub record Texts (R : Type 0) : Type 0 where
  pub no_items : Value R → String
  pub unexpected : String → String

module _ {R : Type 0} where
  -- `{k: v for k, v in data.items() if k in known}`
  unfoldable pub filtered : Members R → Members R → Members R
  unfolding get
  filtered known no_members = no_members
  filtered known (member k v rest) =
      let later = filtered known rest in
      elim (get k known) [ none ↦ later | some default ↦ member k v later ]

  -- The fields of the class, each with its value or its default.
  unfoldable pub filled : Members R → Members R → Members R
  unfolding get
  filled no_members values = no_members
  filled (member k default rest) values = member k (get_or k default values) (filled rest values)

  -- The first keyword that is no field of the class.
  unfoldable pub unknown_key : Members R → Members R → Option String
  unfolding get
  unknown_key cls no_members = none
  unknown_key cls (member k v rest) = elim (get k cls) [
    | none ↦ some k
    | some default ↦ unknown_key cls rest
  ]

  -- `cls(**values)`: a keyword that is no field raises TypeError.
  unfoldable pub construct : Texts R → Members R → Members R → Result (Members R)
  unfolding filled unknown_key
  construct texts cls values = elim (unknown_key cls values) [
    | none ↦ ok (filled cls values)
    | some k ↦ err (exception "TypeError" (texts.unexpected k))
  ]

  -- `_build`, by whether its argument is a dict, with the text of the error for a value without `items`.
  unfoldable pub built_of : Texts R → Members R → Value R → Option (Members R) → Result (Members R)
  unfolding filtered construct
  built_of texts cls v none = err (exception "AttributeError" (texts.no_items v))
  built_of texts cls v (some given) = construct texts cls (filtered cls given)

  unfoldable pub build : Texts R → Members R → Value R → Result (Members R)
  unfolding built_of
  build texts cls v = built_of texts cls v (members_of v)

module _ {R : Type 0} ⦃f : Float R⦄ where
  open f use {lit}

  -- The fields of AgentParams and ActionParams, with their defaults.
  abbrev pub agent_fields : Members R
  agent_fields =
      let p = default_agent_params in
      member "llm_provider" (text p.llm_provider) (
        member "llm_model" (text p.llm_model) (
          member "llm_temperature" (float p.llm_temperature)
            (member "max_steps" (int p.max_steps) no_members)))

  abbrev pub action_fields : Members R
  action_fields =
      let p = default_action_params in
      member "turn_small_deg" (float p.turn_small_deg) (
        member "turn_large_deg" (float p.turn_large_deg) (
          member "search_deg" (float p.search_deg) (
            member "forward_short_m" (float p.forward_short_m)
              (member "forward_medium_m" (float p.forward_medium_m) no_members))))

  -- `v or {}`
  abbrev pub or_empty : Value R → Value R
  or_empty v = if is_truthy v then v else object no_members

  module _ (texts : Texts R) where
    -- `_build(cls, raw.get(name, {}) or {})`
    unfoldable pub section : Members R → String → Members R → Result (Members R)
    unfolding build get
    section cls name raw = build texts cls (or_empty (get_or name (object no_members) raw))

    -- The two sections of the dict that the file holds.
    unfoldable pub sections : Members R → Result (Members R × Members R)
    unfolding section
    sections raw =
        mapped
          (λ agent. mapped (λ actions. ok (agent, actions)) (section action_fields "actions" raw))
          (section agent_fields "agent" raw)

    -- The end of `load_params`, by whether what was parsed is a dict.
    unfoldable pub read_params :
        Interpreter R → Value R → Option (Members R) → Result (Members R × Members R)
    unfolding sections
    read_params py v none = err (exception "AttributeError" (py.no_get v))
    read_params py v (some raw) = sections raw

    -- `load_params`, on whether the file is there and what reading and parsing it give.
    unfoldable pub load_params :
        Interpreter R → String → Bool → Result (Value R) → Result (Members R × Members R)
    unfolding read_params
    load_params py path false parsed =
        err (exception "FileNotFoundError" (concat ("params file not found: " ∷ path ∷ [])))
    load_params py path true (err e) = err e
    load_params py path true (ok v) = read_params py (or_empty v) (members_of (or_empty v))

-- `build_llm`, with `repr`, the value of OPENAI_API_KEY, and the constructor of the chat model.
unfoldable pub build_llm :
    {R L : Type 0}
    → (String → String)
    → Option String
    → (String → R → Result L)
    → AgentParams R
    → Result L
build_llm repr key chat params =
    if not (str_eq params.llm_provider "openai")
    then err (
        exception "ValueError" (
          concat (
            "unsupported llm_provider "
            ∷ repr params.llm_provider
            ∷ "; only 'openai' is wired"
            ∷ [])))
    else elim key [
      | none ↦ err (
          exception "RuntimeError"
            "OPENAI_API_KEY environment variable is required for the openai provider")
      | some k ↦
          if str_eq k ""
          then err (
              exception "RuntimeError"
                "OPENAI_API_KEY environment variable is required for the openai provider")
          else chat params.llm_model params.llm_temperature
    ]
