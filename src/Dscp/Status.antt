-- ===== src/Dscp/Status.antt =====
-- `get_allocation_status` of wsgi/services/tsim_dscp_registry.py. The time is read once in a call. An
-- entry has all its keys here, so that the answer with an `error` is not there.
use Prim.Native.String.{◌++◌ as text_append}
use traceroute_simulator.Prelude.{
  ℕ, ◌+◌, ◌-◌, String, not, List, [], ◌∷◌, leb, if◌then◌else◌, length, Dict,
}
use traceroute_simulator.Firewall.Words.{ℤ, pos, negsuc, str_of}
use traceroute_simulator.Dscp.{Allocation, File, Config, System, load_registry, used_dscps}

-- `m - n`
unfoldable pub difference : ℕ → ℕ → ℤ
difference m n = if leb n m then pos (m - n) else negsuc (n - m - 1)

-- An entry of `allocations` in the status.
pub record Entry : Type 0 where
  pub dscp : ℕ
  pub username : String
  pub allocated_at : ℕ
  pub age_seconds : ℤ

pub record Report : Type 0 where
  pub dscp_range : String
  pub total_capacity : ℤ
  pub total_allocations : ℕ
  pub available_slots : ℤ
  pub used_dscps : List ℕ
  pub allocations : Dict Entry

-- The answer with `enabled` false, and the one with `enabled` true.
pub data Status : Type 0 where
  disabled : (total_allocations : ℕ) (available_dscps : ℤ) (used : List ℕ) → Status
  enabled : Report → Status

-- `sorted` on numbers.
unfoldable pub insert_sorted : ℕ → List ℕ → List ℕ
insert_sorted n [] = n ∷ []
insert_sorted n (x ∷ xs) = let rest = insert_sorted n xs in if leb n x then n ∷ x ∷ xs else x ∷ rest

unfoldable pub sorted : List ℕ → List ℕ
sorted [] = []
sorted (x ∷ xs) = insert_sorted x (sorted xs)

abbrev pub entry_of : System → Allocation → Entry
entry_of sys a = record {
  dscp = a.dscp;
  username = a.username;
  allocated_at = a.allocated_at;
  age_seconds = difference sys.now a.allocated_at;
}

unfoldable pub entries : System → Dict Allocation → Dict Entry
entries sys [] = []
entries sys ((k, a) ∷ d) = (k, entry_of sys a) ∷ entries sys d

-- `self.dscp_max - self.dscp_min + 1`
abbrev pub capacity : Config → ℤ
capacity c = difference (c.dscp_max + 1) c.dscp_min

abbrev pub report : Config → System → Dict Allocation → Report
report c sys d = record {
  dscp_range = text_append (str_of c.dscp_min) (text_append "-" (str_of c.dscp_max));
  total_capacity = capacity c;
  total_allocations = length d;
  available_slots = difference (c.dscp_max + 1) (c.dscp_min + length d);
  used_dscps = sorted (used_dscps d);
  allocations = entries sys d;
}

unfoldable pub get_allocation_status : Config → System → File → Status
get_allocation_status c sys file =
    if not c.enabled
    then disabled 0 (capacity c) []
    else enabled (report c sys (load_registry sys file).allocations)
