-- ===== src/Core/Graph/Disk.antt =====
-- danus/core/factgraph.py: what a fact graph keeps on the disk. A file of a fact is given with what
-- parse_frontmatter reads in it; the journals are given as values, without the tests of their
-- format and their older format.
pub mod Laws
use Prim.Native.String.{compare}
use text.Mathlib.Text.{is_le}
use danus.Base.{
  ◌≡◌, ◌==◌, if◌then◌else◌, String, Bool, Option, none, some, List, [], ◌∷◌, is_some, map,
}
use danus.Base.Assoc.{lookup}

-- symbol -> definition
abbrev pub Glossary : Type 0
Glossary = List (String × String)

pub record FactFile : Type 0 where
  pub raw : String
  pub predecessors : List String
  pub glossary_introduces : Glossary

-- fact_id -> file, for facts/ and for _revoked/, in the order in which `sorted` lists the names
abbrev pub Directory : Type 0
Directory = List (String × FactFile)

-- a line of the revocation log
pub record LogEntry : Type 0 where
  pub timestamp_utc : String
  pub fact_id : String
  pub reason : String
  pub revoked_as_dependent_of : Option String
  pub revocation_id : String

pub record PendingRevocation : Type 0 where
  pub revocation_id : String
  pub timestamp_utc : String
  pub root_fact_id : String
  pub reason : String
  pub fact_ids : List String

-- The journal of an add, `state` "prepared". The expected bytes stand where the source has their
-- SHA-256.
pub record PreparedAdd : Type 0 where
  pub transaction_id : String
  pub fact_id : String
  pub previous_fact : Option FactFile
  pub previous_glossary : Option Glossary
  pub expected_fact : FactFile
  pub expected_glossary : Option Glossary

-- `state` "committed"
pub record CommittedAdd : Type 0 where
  pub transaction_id : String
  pub fact_id : String
  pub expected_fact : FactFile
  pub expected_glossary : Option Glossary

-- `state` "rollback_required"
pub record AbortedAdd : Type 0 where
  pub transaction_id : String
  pub fact_id : String

pub record Disk : Type 0 where
  pub facts : Directory
  pub revoked : Directory
  pub glossary : Option Glossary
  pub pending_add : Option PreparedAdd
  pub pending_add_commit : Option CommittedAdd
  pub pending_add_abort : Option AbortedAdd
  pub pending_revocation : Option PendingRevocation
  pub revocation_log : List LogEntry

-- A file is replaced, or takes its place among the names.
unfoldable pub write : String → FactFile → Directory → Directory
write id file [] = (id, file) ∷ []
write id file ((j, f) ∷ files) =
    if j == id
    then (id, file) ∷ files
    else if is_le (compare id j)
    then (id, file) ∷ (j, f) ∷ files
    else (j, f) ∷ write id file files

unfoldable pub exists : String → Directory → Bool
unfolding lookup
exists id files = is_some (lookup id files)

abbrev pub names : Directory → List String
names files = map (λ p. p.0) files

-- parse_frontmatter(raw)["predecessors"], none of an absent file
unfoldable pub predecessors : String → Directory → List String
unfolding lookup
predecessors id files = elim (lookup id files) [ none ↦ [] | some f ↦ f.predecessors ]

-- No addition is under way.
abbrev pub IsAtRest : Disk → Type 0
IsAtRest d = (d.pending_add ≡ none) × (d.pending_add_commit ≡ none) × (d.pending_add_abort ≡ none)
