-- ===== src/Exec/Permits.antt =====
-- tools/exec.rs: what commands are refused.
use kitaebot.Common.{
  ℕ, ◌≤◌, ◌≡◌, ◌≢◌, ◌⊎◌, refl, true, List, [], ◌∷◌, ◌++◌, Text, codes, none, some, All, In, ◌=?◌,
  list_key, nat_key,
}
use kitaebot.Exec.{Matchers}

-- What is only refused as a subcommand, and what is refused with any arguments.
abbrev pub refused_subcommands : List (Text × Text)
refused_subcommands =
    (codes "git", codes "clone")
    ∷ (codes "git", codes "push")
    ∷ (codes "git", codes "fetch")
    ∷ (codes "git", codes "commit")
    ∷ (codes "gh", codes "auth")
    ∷ (codes "nix", codes "profile")
    ∷ []

abbrev pub refused_binaries : List Text
refused_binaries =
    codes "at"
    ∷ codes "halt"
    ∷ codes "mount"
    ∷ codes "poweroff"
    ∷ codes "reboot"
    ∷ codes "shred"
    ∷ codes "shutdown"
    ∷ codes "su"
    ∷ codes "truncate"
    ∷ codes "umount"
    ∷ codes "wipe"
    ∷ []

-- A letter or an underscore.
abbrev pub Letter : ℕ → Type 0
Letter c = (b'a' ≤ c × c ≤ b'z') ⊎ (b'A' ≤ c × c ≤ b'Z') ⊎ (c ≡ b'_')

-- `NAME=value`.
pub record Assignment (t : Text) : Type 0 where
  pub first : ℕ
  pub name : Text
  pub value : Text
  pub split : t ≡ first ∷ (name ++ (b'=' ∷ value))
  pub letter : Letter first
  pub letters : All (λ c. Letter c ⊎ (b'0' ≤ c × c ≤ b'9')) name

-- The word names the binary, with the path of its directory or without.
abbrev pub Names : Text → Text → Type 0
Names word binary =
    (word ≡ binary)
    ⊎ ((directory : Text) × (word ≡ directory ++ (b'/' ∷ binary)) × All (λ c. c ≢ b'=') directory)

-- A word that is no subcommand: it starts with a dash, or has an equals sign.
abbrev pub Flag : Text → Type 0
Flag t = ((s : Text) × (t ≡ b'-' ∷ s)) ⊎ In b'=' t

-- The words run the binary with the arguments, behind any assignments.
pub record Runs (binary : Text) (args words : List Text) : Type 0 where
  pub assignments : List Text
  pub word : Text
  pub assign : All Assignment assignments
  pub names : Names word binary
  pub split : words ≡ assignments ++ (word ∷ args)

-- A segment that shlex does not parse, or that runs a refused subcommand or a refused binary.
pub data Refused (m : Matchers) (segment : Text) : Type 0 where
  unparseable : m.split segment ≡ none → Refused m segment
  subcommand :
      (binary sub : Text) (flags rest words : List Text)
      → In (binary, sub) refused_subcommands
      → m.split segment ≡ some words
      → All Flag flags
      → Runs binary (flags ++ (sub ∷ rest)) words
      → Refused m segment
  any_arguments :
      (binary : Text) (args words : List Text)
      → In binary refused_binaries
      → m.split segment ≡ some words
      → Runs binary args words
      → Refused m segment

text_refl : (t : Text) → (t =? t) ≡ true
text_refl t = ((list_key {A = ℕ}).same_iff t t).1 refl
