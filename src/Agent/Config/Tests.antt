-- ===== src/Agent/Config/Tests.antt =====
-- The configuration of a small file, and the model factory.
use rover_mind.Prelude.{◌≡◌, refl, true, false, none, str_eq}
use rover_mind.Prelude.Int.{pos}
use rover_mind.Prelude.Io.{ok, err, exception}
use rover_mind.Float.Fixed.{Fixed, num, fixed_float}
use rover_mind.Agent.{default_agent_params}
use rover_mind.Agent.Config.{Texts, construct, action_fields, load_params, build_llm}
use rover_mind.Agent.Config.Sections.{IsLoadable, Filled, file_members, load_params-Filled}
use rover_mind.Bridge.Values.{
  null, int, float, text, object, Members, no_members, member, Interpreter, get,
}

abbrev python : Interpreter Fixed
python = record {
  str = λ v. "{...}";
  repr = λ v. "{...}";
  parse_float = λ t. none;
  binding_error = λ name args. "unexpected keyword argument";
  unhashable = λ v. "unhashable type";
  no_get = λ v. "no attribute 'get'";
  dict_of = λ v. err (exception "TypeError" "not iterable");
  is_os_error = λ kind. str_eq kind "BrokenPipeError";
}

abbrev texts : Texts Fixed
texts = record {
  no_items = λ v. "no attribute 'items'";
  unexpected = λ key. "unexpected keyword argument";
}

-- A section with a field and a key that is none; the other section is empty.
abbrev file : Members Fixed
file =
    member "agent"
      (object (member "max_steps" (int (pos 7)) (member "colour" (text "red") no_members)))
      (member "actions" null no_members)

abbrev read : Members Fixed × Members Fixed
read = (
  member "llm_provider" (text "openai") (
      member "llm_model" (text "gpt-4o-mini") (
        member "llm_temperature" (float (num (pos 0)))
          (member "max_steps" (int (pos 7)) no_members))),
  action_fields,
)

loads : load_params texts python "config/params.yaml" true (ok (object file)) ≡ ok read
unfolding load_params get fixed_float
loads = refl

missing :
    load_params ⦃f = fixed_float⦄ texts python "config/params.yaml" false (ok null)
    ≡ err (exception "FileNotFoundError" "params file not found: config/params.yaml")
unfolding load_params
missing = refl

file-IsLoadable : IsLoadable (object file)
unfolding get
file-IsLoadable = ((file, refl), (_, refl), (no_members, refl))

load_params-Filled_example :
    (both : Members Fixed × Members Fixed) × (load_params texts python "config/params.yaml" true
        (ok (object file))
      ≡ ok both)
    × Filled (file_members (object file)) both
load_params-Filled_example =
    load_params-Filled python texts "config/params.yaml" (object file) file-IsLoadable

-- Without the filter a keyword that is no field raises.
unfiltered :
    construct texts action_fields (member "colour" (text "red") no_members)
    ≡ err (exception "TypeError" "unexpected keyword argument")
unfolding construct get
unfiltered = refl

no_key :
    build_llm (λ t. t) none (λ name temperature. ok name) (default_agent_params ⦃f = fixed_float⦄)
    ≡ err (
        exception "RuntimeError"
          "OPENAI_API_KEY environment variable is required for the openai provider")
unfolding build_llm
no_key = refl
