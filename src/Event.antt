-- ===== src/Event.antt =====
-- internal/event: the write-once unit of a ticket's log, and the hash that chains it.
-- An int is modelled where the code keeps it at 0 or above (a sequence number); a time.Time is the
-- number of nanoseconds since Go's zero time, so that 0 is the time that IsZero reports.

pub mod Disk
use draiver.Prelude.{ℕ, ◌-◌, ◌%◌, String, ◌<>◌, Bool, List, eqb}
use draiver.Prelude.Text.{trim_right, pad}
use Prim.Native.Char.{Char, code}

pub record Link : Type 0 where
  pub rel : String
  pub href : String

-- `Event`; the field named type in the source is `kind`.
pub record Event : Type 0 where
  pub seq : ℕ
  pub kind : String
  pub ts : ℕ
  pub actor : String
  pub ticket : String
  pub attempt : String
  pub refs : List ℕ
  pub artefacts : List String
  pub links : List Link
  pub outcome : String
  pub rung : String
  pub commit : String
  pub environment : String
  pub supersedes : List ℕ
  pub tags : List String
  pub woken_child : String
  pub woken_seq : ℕ
  pub prev : String
  pub hash : String
  pub body : String

-- `hashable`: the frontmatter without the hash, the time as text.
pub record Hashable : Type 0 where
  pub seq : ℕ
  pub kind : String
  pub ts : String
  pub actor : String
  pub ticket : String
  pub attempt : String
  pub refs : List ℕ
  pub artefacts : List String
  pub links : List Link
  pub outcome : String
  pub rung : String
  pub commit : String
  pub environment : String
  pub supersedes : List ℕ
  pub tags : List String
  pub woken_child : String
  pub woken_seq : ℕ
  pub prev : String

-- What the package calls and does not implement.
pub record Codec : Type 0 where
  -- yaml.Marshal on `hashable`
  pub yaml : Hashable → String
  -- hex.EncodeToString of sha256.Sum256
  pub sha256_hex : String → String
  -- Format(time.RFC3339) of a UTC time
  pub rfc3339 : ℕ → String
  -- Format("20060102T150405Z") of a UTC time
  pub stamp : ℕ → String

abbrev is_newline : Char → Bool
is_newline c = eqb (code c) 10

-- The body as it is hashed and persisted.
unfoldable pub canonical_body : String → String
unfolding trim_right
canonical_body = trim_right is_newline

abbrev pub second : ℕ
second = 1000000000

-- Truncate(time.Second)
unfoldable pub truncate_second : ℕ → ℕ
truncate_second t = t - t % second

module _ (codec : Codec) where
  unfoldable pub hashable : Event → Hashable
  hashable e = record {
    seq = e.seq;
    kind = e.kind;
    ts = codec.rfc3339 e.ts;
    actor = e.actor;
    ticket = e.ticket;
    attempt = e.attempt;
    refs = e.refs;
    artefacts = e.artefacts;
    links = e.links;
    outcome = e.outcome;
    rung = e.rung;
    commit = e.commit;
    environment = e.environment;
    supersedes = e.supersedes;
    tags = e.tags;
    woken_child = e.woken_child;
    woken_seq = e.woken_seq;
    prev = e.prev;
  }

  -- The digest of frontmatter and body; `ComputeHash` applies it to an event's.
  unfoldable pub digest : Hashable → String → String
  digest h body = codec.sha256_hex (codec.yaml h <> "\n" <> body)

  unfoldable pub compute_hash : Event → String
  compute_hash e = digest (hashable e) (canonical_body e.body)

  unfoldable pub filename : Event → String
  filename e = codec.stamp e.ts <> "-" <> pad 4 e.seq <> "-" <> e.kind <> ".md"
