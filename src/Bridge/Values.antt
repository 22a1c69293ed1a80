-- ===== src/Bridge/Values.antt =====
-- The values that cross the bridge: what `json.loads` gives, with the operations of Python's dicts and
-- conversions that bridge/client.py and bridge/bridge_server.py use of them.
use rover_mind.Prelude.{
  ℕ, zero, suc, String, Bool, true, false, not, ◌&&◌, Option, none, some, if◌then◌else◌, str_eq,
}
use rover_mind.Prelude.Int.{ℤ, pos, leb_ℤ}
use rover_mind.Prelude.Io.{Result, ok, err, exception}
use rover_mind.Float.{Float, nought, one}

mutual
  pub data Value (R : Type 0) : Type 0 where
    null : Value R
    boolean : Bool → Value R
    int : ℤ → Value R
    float : R → Value R
    text : String → Value R
    array : Items R → Value R
    object : Members R → Value R

  pub data Items (R : Type 0) : Type 0 where
    no_items : Items R
    item : Value R → Items R → Items R

  pub data Members (R : Type 0) : Type 0 where
    no_members : Members R
    member : String → Value R → Members R → Members R

-- What the interpreter answers: `str` and `repr` of a value, `float` of a text, `dict` of a value that
-- is none, whether an exception's class derives from OSError, and the texts of the errors that a call
-- with the wrong keywords, an unhashable key and a value without `get` raise.
pub record Interpreter (R : Type 0) : Type 0 where
  pub str : Value R → String
  pub repr : Value R → String
  pub parse_float : String → Option R
  pub binding_error : String → Value R → String
  pub unhashable : Value R → String
  pub no_get : Value R → String
  pub dict_of : Value R → Result (Members R)
  pub is_os_error : String → Bool

module _ {R : Type 0} where
  -- `members.get(key)`
  unfoldable pub get : String → Members R → Option (Value R)
  get key no_members = none
  get key (member k v rest) = let found = get key rest in if str_eq k key then some v else found

  -- `members.get(key, default)`
  abbrev pub get_or : String → Value R → Members R → Value R
  get_or key default members = elim (get key members) [ none ↦ default | some v ↦ v ]

  -- `members[key] = v`
  unfoldable pub set : String → Value R → Members R → Members R
  set key v no_members = member key v no_members
  set key v (member k x rest) =
      let later = set key v rest in if str_eq k key then member k v rest else member k x later

  -- `len(members)`
  abbrev pub size : Members R → ℕ
  size no_members = 0
  size (member k v rest) = suc (size rest)

  -- `isinstance(v, dict)`
  abbrev pub members_of : Value R → Option (Members R)
  members_of (object o) = some o
  members_of _ = none

  -- A list and a dict cannot be looked up in a dict.
  abbrev pub is_hashable : Value R → Bool
  is_hashable (array xs) = false
  is_hashable (object o) = false
  is_hashable _ = true

  abbrev pub text_of : Value R → Option String
  text_of (text t) = some t
  text_of _ = none

  -- `v == key`, for a text
  abbrev pub is_text : Value R → String → Bool
  is_text (text t) key = str_eq t key
  is_text _ key = false

-- The test of a value in an `if`.
abbrev pub is_truthy : {R : Type 0} → ⦃f : Float R⦄ → Value R → Bool
is_truthy null = false
is_truthy (boolean b) = b
is_truthy (int n) = not (leb_ℤ n (pos 0) && leb_ℤ (pos 0) n)
is_truthy ⦃f⦄ (float x) = not (f.le x nought && f.le nought x)
is_truthy (text t) = not (str_eq t "")
is_truthy (array no_items) = false
is_truthy (array (item v rest)) = true
is_truthy (object no_members) = false
is_truthy (object (member k v rest)) = true

-- `v == n`, for an integer: a boolean is an integer too.
abbrev pub equals_int : {R : Type 0} → ⦃f : Float R⦄ → Value R → ℤ → Bool
equals_int (int m) n = leb_ℤ m n && leb_ℤ n m
equals_int (boolean true) n = leb_ℤ (pos 1) n && leb_ℤ n (pos 1)
equals_int (boolean false) n = leb_ℤ (pos 0) n && leb_ℤ n (pos 0)
equals_int ⦃f⦄ (float x) n = f.le x (f.of_int n) && f.le (f.of_int n) x
equals_int _ n = false

-- `float(v)`, where it does not raise TypeError or ValueError.
abbrev pub to_float : {R : Type 0} → ⦃f : Float R⦄ → Interpreter R → Value R → Option R
to_float py (float x) = some x
to_float ⦃f⦄ py (int n) = some (f.of_int n)
to_float py (boolean true) = some one
to_float py (boolean false) = some nought
to_float py (text t) = py.parse_float t
to_float py _ = none

-- `isinstance(v, (int, float))`
abbrev pub is_number : {R : Type 0} → Value R → Bool
is_number (float x) = true
is_number (int n) = true
is_number (boolean b) = true
is_number _ = false

-- `str(v)`
abbrev pub to_text : {R : Type 0} → Interpreter R → Value R → String
to_text py (text t) = t
to_text py v = py.str v

-- The first characters of a text.
abbrev pub prefix : ℕ → String → String
prefix zero s = ""
prefix (suc n) String.[] = ""
prefix (suc n) (String.◌∷◌ c s) = String.◌∷◌ c (prefix n s)

-- `members[key]`
abbrev pub item_of : {R : Type 0} → String → Members R → Result (Value R)
item_of key o = elim (get key o) [ none ↦ err (exception "KeyError" key) | some v ↦ ok v ]
