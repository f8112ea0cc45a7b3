-- ===== src/Rig/Keys.antt =====
-- The tests on keys and effect ids of Tools/errig_read.c: `memcmp` with a literal of four characters,
-- and the chains of `||` and of tests with a result each.
use Prim.Native.Char.{code}
use r_compatible_driver_v.Base.{
  ℕ, List, [], ◌∷◌, Bytes, String, Option, none, some, ◌==◌, if◌then◌else◌, ◌||◌, Bool, true, false,
  take,
}
use r_compatible_driver_v.Rig.{same_key}

-- The characters of a literal
unfoldable pub quad : String → Bytes
quad String.[] = []
quad (String.◌∷◌ c s) = code c ∷ quad s

unfoldable pub key_is : Bytes → String → Bool
key_is key literal = same_key key (quad literal)

unfoldable pub key_in : Bytes → List String → Bool
key_in key [] = false
key_in key (l ∷ ls) = key_is key l || key_in key ls

unfoldable pub one_of : ℕ → List ℕ → Bool
one_of id [] = false
one_of id (i ∷ ids) = id == i || one_of id ids

-- `if (!memcmp(key, "...", 4)) return "...";` in a row
unfoldable pub key_name : Bytes → List (String × String) → Option String
key_name key [] = none
key_name key ((literal, name) ∷ names) =
    if key_is key literal then some name else key_name key names

-- The same under a test of the effect, and what comes behind it
unfoldable pub within : Bool → Option String → Option String → Option String
within true (some name) rest = some name
within true none rest = rest
within false name rest = rest

unfoldable pub first_of : List (Bool × Option String) → Option String
first_of [] = none
first_of ((test, name) ∷ tests) = within test name (first_of tests)

-- `memcmp` of three characters
unfoldable pub key_starts : Bytes → String → Bool
key_starts key literal = same_key (take 3 key) (quad literal)
