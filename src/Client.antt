-- ===== src/Client.antt =====
-- Reaching a server on another machine: what a probe says (src/protocol/probe.rs), what a failed one means and
-- whether the build it found is this client's (src/client/remote.rs), and how a word is quoted for the remote shell
-- (src/client/ssh.rs). An exit code that has to be printed is printed by a parameter.
pub mod Probing
pub mod Quote
pub mod Tests
use Prim.Native.String.{String, ◌++◌ as cat}
use text.Mathlib.Text.{◌==◌ as str_eq, get?, find?}
use file_peeker.Base.{
  ℕ, Bool, true, false, ◌&&◌, ◌||◌, not, Option, none, some, List, [], ◌∷◌, if◌then◌else◌, ◌==◌,
}

-- `CLIENT_PROTOCOL`.
abbrev pub client_protocol_version : ℕ
client_protocol_version = 3

pub record Probe : Type 0 where
  pub installed : Bool
  pub version : String
  pub client_protocol : ℕ
  pub build : String
  pub source_hash : Option String
  pub server_running : Bool

abbrev pub or_whole : Option String → String → String
or_whole none hash = hash
or_whole (some start) hash = start

-- `hash.get(..8).unwrap_or(hash)`.
unfoldable pub short : String → String
short hash = or_whole (get? hash 0 8) hash

abbrev pub describe_dev : Option String → String
unfolding short
describe_dev (some hash) = cat "dev, source " (short hash)
describe_dev none = "dev, source unknown"

unfoldable pub describe : Probe → String
unfolding describe_dev
describe probe =
    if not probe.installed
    then "nothing installed"
    else if str_eq probe.build "dev"
    then describe_dev probe.source_hash
    else cat "release v" probe.version

pub data Reach : Type 0 where
  probed : Probe → Reach
  needs_login unreachable : (why : String) → Reach

abbrev pub login_signs : List String
login_signs =
    "Permission denied" ∷ "Host key verification failed" ∷ "keyboard-interactive"
    ∷ "Too many authentication failures" ∷ "password" ∷ []

abbrev pub is_there {ℓ} : {A : Type ℓ} → Option A → Bool
is_there none = false
is_there (some a) = true

abbrev pub contains : String → String → Bool
contains text sign = is_there (find? text sign)

abbrev pub contains_any : String → List String → Bool
contains_any text [] = false
contains_any text (sign ∷ signs) = contains text sign || contains_any text signs

abbrev pub is_code : Option ℕ → ℕ → Bool
is_code none n = false
is_code (some code) n = code == n

-- `code` as `{:?}` prints it is `printed`.
unfoldable pub classify_failure : (code : Option ℕ) (printed : String) (stderr : String) → Reach
classify_failure code printed stderr =
    if is_code code 255 && contains_any stderr login_signs
    then needs_login stderr
    else if str_eq stderr ""
    then unreachable (cat "ssh exited with " printed)
    else unreachable stderr

pub record Source : Type 0 where
  pub dir : String
  pub files : List String
  pub hash : String

pub data Wanted : Type 0 where
  release : (version : String) → Wanted
  dev : (source : Source) → Wanted

unfoldable pub describe_wanted : Wanted → String
unfolding short
describe_wanted (release version) = cat "release v" version
describe_wanted (dev source) = cat "dev, source " (short source.hash)

abbrev pub is_hash : Option String → String → Bool
is_hash none hash = false
is_hash (some found) hash = str_eq found hash

unfoldable pub is_same : Wanted → Probe → Bool
is_same (release version) probe = str_eq probe.build "release" && str_eq probe.version version
is_same (dev source) probe = str_eq probe.build "dev" && is_hash probe.source_hash source.hash

-- Why the probe is not of this build.
unfoldable pub mismatch : Wanted → Probe → Option String
unfolding is_same describe
mismatch wanted probe =
    if not probe.installed
    then some "nothing is installed"
    else if is_same wanted probe && probe.client_protocol == client_protocol_version
    then none
    else some (cat "it has " (describe probe))
