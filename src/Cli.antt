-- ===== src/Cli.antt =====
-- The command line of source/src/cli.rs: `expand_env` and `Toggle`. How arguments are parsed is the
-- clap library's. The variables of the process are a parameter.
pub mod References
use rules_oci_runtime.Prelude.{
  ℕ, Bool, true, false, ◌||◌, ◌&&◌, Option, none, some, List, [], ◌∷◌, ◌++◌, Bytes, ◌==◌, leb,
  if◌then◌else◌, codes,
}

pub data Toggle : Type 0 where
  auto on off : Toggle

-- `Toggle::resolve`
unfoldable pub resolve_toggle : Toggle → Bool → Bool
resolve_toggle auto detected = detected
resolve_toggle on detected = true
resolve_toggle off detected = false

-- `is_ascii_alphabetic` or an underscore
unfoldable pub begins_name : ℕ → Bool
begins_name c = (leb b'a' c && leb c b'z') || (leb b'A' c && leb c b'Z') || c == b'_'

unfoldable pub continues_name : ℕ → Bool
unfolding begins_name
continues_name c = begins_name c || (leb b'0' c && leb c b'9')

-- Where the loop of `expand_env` stands: outside, behind a `$`, in a name in braces, in a bare one.
pub data Mode : Type 0 where
  outside dollar : Mode
  braced bare : Bytes → Mode

abbrev pub or_nothing : Option Bytes → Bytes
or_nothing none = []
or_nothing (some value) = value

module _ (vars : Bytes → Option Bytes) where
  -- The end of the text.
  abbrev pub finish : Mode → Bytes
  finish outside = []
  finish dollar = codes "$"
  finish (braced name) = codes "${" ++ name
  finish (bare name) = or_nothing (vars name)

  -- One character: what it adds to the text, and where the loop stands after it.
  unfoldable pub step : Mode → ℕ → Bytes × Mode
  unfolding begins_name continues_name
  step outside c = if c == b'$' then ([], dollar) else (c ∷ [], outside)
  step dollar c =
      if c == b'{'
      then ([], braced [])
      else if begins_name c
      then ([], bare (c ∷ []))
      else if c == b'$'
      then (codes "$", dollar)
      else (codes "$" ++ (c ∷ []), outside)
  step (braced name) c =
      if c == b'}' then (or_nothing (vars name), outside) else ([], braced (name ++ (c ∷ [])))
  step (bare name) c =
      if continues_name c
      then ([], bare (name ++ (c ∷ [])))
      else if c == b'$'
      then (or_nothing (vars name), dollar)
      else (or_nothing (vars name) ++ (c ∷ []), outside)

  unfoldable pub expand_from : Mode → Bytes → Bytes
  unfolding step
  expand_from mode [] = finish mode
  expand_from mode (c ∷ cs) = (step mode c).0 ++ expand_from (step mode c).1 cs

  unfoldable pub expand_env : Bytes → Bytes
  unfolding expand_from
  expand_env value = expand_from outside value
