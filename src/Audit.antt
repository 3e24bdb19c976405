-- ===== src/Audit.antt =====
-- heartwood/audit.py, and the audit table of heartwood/store.py: an append-only log whose rows are
-- chained by a hash. Texts that are hashed are lists of code points, so that their concatenation
-- can be taken apart.
pub mod Epochs
pub mod Chain
pub mod Tamper
use Prim.Native.Char.{code}
use heartwood_memory.Prelude.{
  ℕ, suc, ◌<◌, ◌≡◌, Bool, true, false, not, ◌&&◌, ◌==◌, Option, none, some, List, [], ◌∷◌, ◌++◌,
  String, str_eq, length, All, if◌then◌else◌,
}

-- The code points of a text. `String` has constructors of its own.
abbrev pub codes : String → List ℕ
codes String.[] = []
codes (String.◌∷◌ c s) = code c ∷ codes s

abbrev pub codes_eq : List ℕ → List ℕ → Bool
codes_eq [] [] = true
codes_eq (x ∷ xs) (y ∷ ys) = (x == y) && codes_eq xs ys
codes_eq _ _ = false

-- A JSON value as the audit code looks at it: a text, or anything else.
pub data Value : Type 0 where
  text : String → Value
  other : List ℕ → Value

abbrev pub Fields : Type 0
Fields = List (String × Value)

-- `json.loads`: an exception, a value that is no object, or an object.
pub data Parsed : Type 0 where
  malformed not_object : Parsed
  object : Fields → Parsed

-- The functions of Python's `hashlib`, `json` and `repr` that the code calls. A hex digest has 64
-- characters, all of them digits or letters up to `f`.
pub record Codec : Type 0 where
  pub sha256 : List ℕ → List ℕ
  pub length-sha256 : (x : List ℕ) → length (sha256 x) ≡ 64
  pub hex : (x : List ℕ) → All (λ c. c < b'g') (sha256 x)
  pub repr : ℕ → List ℕ
  pub dumps : Fields → List ℕ
  pub loads : List ℕ → Parsed

pub record Row : Type 0 where
  pub seq : ℕ
  pub ts : ℕ
  pub tenant : String
  pub principal : String
  pub action : String
  pub target : String
  pub body : List ℕ
  pub prev_hash : List ℕ
  pub row_hash : List ℕ

-- `audit_log`, in order of `seq`; `last_seq` is the counter of AUTOINCREMENT.
pub record Log : Type 0 where
  pub rows : List Row
  pub last_seq : ℕ

abbrev pub genesis : List ℕ
genesis = codes "genesis"

-- `audit_head()["row_hash"]`
unfoldable pub head_hash : List ℕ → List Row → List ℕ
head_hash prev [] = prev
head_hash prev (r ∷ rows) = head_hash r.row_hash rows

-- The text that a row's hash is taken of: `prev_hash + body + repr(ts)`.
unfoldable pub hashed : Codec → List ℕ → List ℕ → ℕ → List ℕ
hashed c prev body ts = prev ++ (body ++ c.repr ts)

-- The row that `append_audit_in_transaction` inserts; `ts` is the time of the call.
unfoldable pub next_row : Codec → Log → String → String → String → String → List ℕ → ℕ → Row
unfolding head_hash hashed
next_row c log tenant principal action target body ts =
    let prev = head_hash genesis log.rows in
    record {
      seq = suc log.last_seq;
      ts = ts;
      tenant = tenant;
      principal = principal;
      action = action;
      target = target;
      body = body;
      prev_hash = prev;
      row_hash = c.sha256 (hashed c prev body ts);
    }

unfoldable pub append_audit : Codec → Log → String → String → String → String → List ℕ → ℕ → Log
unfolding next_row
append_audit c log tenant principal action target body ts = record {
  rows = log.rows ++ next_row c log tenant principal action target body ts ∷ [];
  last_seq = suc log.last_seq;
}

-- `append_audit_bound_atomic`: the body is built from the sequence number that the row gets.
unfoldable pub append_audit_bound :
    Codec → Log → String → String → String → String → (ℕ → List ℕ) → ℕ → Log
unfolding append_audit
append_audit_bound c log tenant principal action target builder ts =
    append_audit c log tenant principal action target (builder (suc log.last_seq)) ts

-- `AuditLog.body`
unfoldable pub audit_fields : String → String → String → String → Value → Fields
audit_fields tenant principal action target detail =
    ("tenant", text tenant)
    ∷ ("principal", text principal)
    ∷ ("action", text action)
    ∷ ("target", text target)
    ∷ ("detail", detail)
    ∷ []
