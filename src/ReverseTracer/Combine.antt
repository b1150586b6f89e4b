-- ===== src/ReverseTracer/Combine.antt =====
-- `_step3_reverse_and_combine` of src/core/reverse_path_tracer.py, up to the interfaces: the hops of
-- the two traces in one path, of which Linux routers and both ends stay, and the links between them.
use mathlib.Core.List.{reverse}
use traceroute_simulator.Prelude.{
  ℕ, suc, String, Bool, true, false, not, ◌||◌, Option, none, some, List, [], ◌∷◌, ◌++◌, str_eq,
  if◌then◌else◌, keep, find, value_error, Result, ok, raise, ◌>>=◌, get,
}
use traceroute_simulator.Router.{Router, is_linux}
use traceroute_simulator.Simulator.{Routers, find_router_by_ip, name_or}

-- A tuple of nine elements; `F` holds the times.
pub record Hop (F : Type 0) : Type 0 where
  pub hop_num : ℕ
  pub router_name : String
  pub ip : String
  pub incoming : String
  pub is_router : Bool
  pub prev_hop : String
  pub next_hop : String
  pub outgoing : String
  pub rtt : F

-- The old format has eight elements, without `prev_hop`.
pub data HopTuple (F : Type 0) : Type 0 where
  nine : Hop F → HopTuple F
  eight :
      (hop_num : ℕ) (router_name ip incoming : String) (is_router : Bool)
      (next_hop outgoing : String) (rtt : F)
      → HopTuple F

abbrev is_linux_router : Option Router → Bool
is_linux_router none = false
is_linux_router (some router) = is_linux router

abbrev linux_named : Routers → Option String → Option String
linux_named routers none = none
linux_named routers (some name) = if is_linux_router (get name routers) then some name else none

-- The Linux router that owns the address.
unfoldable pub linux_at : Routers → String → Option String
linux_at routers ip = linux_named routers (find_router_by_ip routers ip)

abbrev pub is_found : Option String → Bool
is_found none = false
is_found (some name) = true

abbrev pub is_named : String → Option String → Bool
is_named name none = false
is_named name (some other) = str_eq other name

-- `_resolve_ip`; none where `gethostbyaddr` raises
unfoldable pub resolve_ip : (String → Option String) → Routers → String → String
resolve_ip host_by_addr routers ip =
    name_or (name_or ip (host_by_addr ip)) (find_router_by_ip routers ip)

abbrev pub nonempty_linux : Routers → String → Option String
nonempty_linux routers ip = if str_eq ip "" then none else linux_at routers ip

module _ {F : Type 0} where
  -- `hop_data[2]` and `hop_data[1]`
  abbrev pub ip_of : HopTuple F → String
  ip_of (nine h) = h.ip
  ip_of (eight n name ip incoming owned next out rtt) = ip

  abbrev pub name_of : HopTuple F → String
  name_of (nine h) = h.router_name
  name_of (eight n name ip incoming owned next out rtt) = name

  abbrev pub has_ip : String → HopTuple F → Bool
  has_ip ip t = str_eq (ip_of t) ip

  abbrev pub lacks_ip : String → HopTuple F → Bool
  lacks_ip ip t = not (str_eq (ip_of t) ip)

  abbrev pub to_list : Option (HopTuple F) → List (HopTuple F)
  to_list none = []
  to_list (some t) = t ∷ []

  abbrev pub end_hop : ℕ → String → String → Bool → F → Hop F
  end_hop n name ip owned rtt = record {
    hop_num = n;
    router_name = name;
    ip = ip;
    incoming = "";
    is_router = owned;
    prev_hop = "";
    next_hop = "";
    outgoing = "";
    rtt = rtt;
  }

  abbrev pub minimal : String → F → HopTuple F
  minimal ip rtt = nine (end_hop 1 ip ip false rtt)

  abbrev pub owned_by : Routers → String → HopTuple F → Bool
  owned_by routers router t = is_named router (find_router_by_ip routers (ip_of t))

  -- Parts 2 and 3 of `temp_path`: the trace back, reversed and without the source, and the first hop
  -- of the forward path that the router owns.
  abbrev pub inner_hops :
      Routers → String → List (HopTuple F) → List (HopTuple F) → String → List (HopTuple F)
  inner_hops routers router forward backward src =
      keep (lacks_ip src) (reverse backward) ++ to_list (find (owned_by routers router) forward)

  unfoldable pub first_linux : Routers → List (HopTuple F) → Option String
  first_linux routers [] = none
  first_linux routers (t ∷ path) = elim (nonempty_linux routers (ip_of t)) [
    | none ↦ first_linux routers path
    | some name ↦ some name
  ]

  unfoldable pub find_last_linux_router : Routers → List (HopTuple F) → Option String
  find_last_linux_router routers path = first_linux routers (reverse path)

module _ {F : Type 0} (zero_rtt : F) where
  -- `hop_data[8] if len(hop_data) >= 9 else 0.0`
  abbrev pub rtt_of : HopTuple F → F
  rtt_of (nine h) = h.rtt
  rtt_of (eight n name ip incoming owned next out rtt) = zero_rtt

  abbrev pub rtt_or_zero : Option (HopTuple F) → F
  rtt_or_zero none = zero_rtt
  rtt_or_zero (some t) = rtt_of t

module _ {F : Type 0} (zero_rtt : F) (host_by_addr : String → Option String)
    (routers : Routers) where
  -- The time of the first hop of the forward path at the destination.
  unfoldable pub destination_rtt : String → List (HopTuple F) → F
  destination_rtt dst forward = rtt_or_zero zero_rtt (find (has_ip dst) forward)

  -- `temp_path`
  unfoldable pub temp_path :
      String → List (HopTuple F) → List (HopTuple F) → String → String → List (HopTuple F)
  temp_path router forward backward src dst =
      minimal src zero_rtt ∷ inner_hops routers router forward backward src
      ++ minimal dst (destination_rtt dst forward) ∷ []

  -- An end of the path, in the final path.
  unfoldable pub resolved_end : ℕ → String → F → Hop F
  resolved_end n ip rtt =
      end_hop n (resolve_ip host_by_addr routers ip) ip (is_found (find_router_by_ip routers ip))
        rtt

  -- Unpacking into nine variables, or else into seven, which fails for eight elements.
  abbrev pub renumbered : ℕ → String → HopTuple F → Result (Option (Hop F))
  renumbered n name (nine h) =
      ok (some (record h { hop_num = n; router_name = name; prev_hop = "" }))
  renumbered n name (eight k old ip incoming owned next out rtt) = raise value_error

  abbrev pub if_linux : ℕ → HopTuple F → Option String → Result (Option (Hop F))
  if_linux n t none = ok none
  if_linux n t (some name) = renumbered n name t

  -- What a hop of `temp_path` becomes, if it stays.
  unfoldable pub final_hop : String → String → String → ℕ → HopTuple F → Result (Option (Hop F))
  final_hop router src dst n t =
      if str_eq (ip_of t) src || str_eq (ip_of t) dst
      then ok (some (resolved_end n (ip_of t) (rtt_of zero_rtt t)))
      else if str_eq (name_of t) router
      then renumbered n (name_of t) t
      else if_linux n t (linux_at routers (ip_of t))

  -- The loop over `temp_path`, with the number of the next hop.
  unfoldable pub final_from :
      String → String → String → ℕ → List (HopTuple F) → Result (List (Hop F))
  final_from router src dst n [] = ok []
  final_from router src dst n (t ∷ ts) = final_hop router src dst n t >>= λ o. elim o [
    | none ↦ final_from router src dst n ts
    | some h ↦ final_from router src dst (suc n) ts >>= λ hops. ok (h ∷ hops)
  ]

  abbrev pub final_path :
      Option String
      → List (HopTuple F)
      → List (HopTuple F)
      → String
      → String
      → Result (List (Hop F))
  final_path none forward backward src dst =
      ok (resolved_end 1 src zero_rtt ∷ resolved_end 2 dst (destination_rtt dst forward) ∷ [])
  final_path (some router) forward backward src dst =
      final_from router src dst 1 (temp_path router forward backward src dst)

-- The first pass, with the name of the hop before.
unfoldable pub set_prev_hops : {F : Type 0} → String → List (Hop F) → List (Hop F)
set_prev_hops name [] = []
set_prev_hops name (h ∷ hops) = record h { prev_hop = name } ∷ set_prev_hops h.router_name hops

-- The second pass, over the reversed path, with the name of the hop after and what is inserted.
unfoldable pub next_hops_from : {F : Type 0} → String → List (Hop F) → List (Hop F) → List (Hop F)
next_hops_from name done [] = done
next_hops_from name done (h ∷ hops) =
    next_hops_from h.router_name (record h { next_hop = name } ∷ done) hops

unfoldable pub link_hops : {F : Type 0} → List (Hop F) → List (Hop F)
link_hops hops = next_hops_from "" [] (reverse (set_prev_hops "" hops))

unfoldable pub reverse_and_combine :
    {F : Type 0}
    → F
    → (String → Option String)
    → Routers
    → List (HopTuple F)
    → List (HopTuple F)
    → String
    → String
    → Result (List (Hop F))
reverse_and_combine zero_rtt host_by_addr routers forward backward src dst =
    final_path zero_rtt host_by_addr routers (find_last_linux_router routers forward) forward
      backward src dst
    >>= λ hops. ok (link_hops hops)
