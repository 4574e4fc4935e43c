-- ===== src/H2/Hpack/Table.antt =====
-- crates/fingerprint-h2/src/hpack/table.rs: the dynamic table and the lookup over both tables.
pub mod Sized
pub mod Lookup
use flux_parsing_daemon.Base.{
  ℕ, zero, suc, ◌+◌, ◌-◌, ◌<◌, ◌^◌, min, List, [], ◌∷◌, Option, none, some, Result, ok, err, ok_or,
  ◌>>=◌, length, get_elem?, ltb, leb, ◌==◌, if◌then◌else◌,
}
use flux_parsing_daemon.Base.Options.{map_option}
use flux_parsing_daemon.H2.Hpack.{HpackError, bad_index}
use flux_parsing_daemon.H2.Hpack.StaticTable.{Header, static_table}

abbrev pub entry_overhead : ℕ
entry_overhead = 32

abbrev pub default_max_size : ℕ
default_max_size = 4096

-- `1 << 20`
abbrev pub absolute_max_size : ℕ
absolute_max_size = 1048576

-- The entries with the front of the `VecDeque` first.
pub record DynamicTable : Type 0 where
  pub entries : List Header
  pub size : ℕ
  pub max_size : ℕ

unfoldable pub new : DynamicTable
new = record { entries = []; size = 0; max_size = default_max_size }

abbrev pub entry_size : Header → ℕ
entry_size e = length e.0 + length e.1 + entry_overhead

-- `VecDeque::pop_back`: the last entry and those before it.
unfoldable pub pop_back : List Header → Option (Header × List Header)
pop_back [] = none
pop_back (e ∷ []) = some (e, [])
pop_back (e ∷ f ∷ es) = map_option (λ r. (r.0, e ∷ r.1)) (pop_back (f ∷ es))

-- The body of the loop of `evict_to_fit`.
unfoldable pub without_back : DynamicTable → Option (Header × List Header) → DynamicTable
without_back t none = record { entries = t.entries; size = 0; max_size = t.max_size }
without_back t (some r) = record {
  entries = r.1;
  size = t.size - entry_size r.0;
  max_size = t.max_size;
}

-- The loop. Each round takes an entry away, so as many rounds as entries and one more are enough.
unfoldable pub evict : ℕ → DynamicTable → DynamicTable
evict zero t = t
evict (suc fuel) t =
    let rest = evict fuel (without_back t (pop_back t.entries)) in
    if ltb t.max_size t.size then rest else t

unfoldable pub evict_to_fit : DynamicTable → DynamicTable
evict_to_fit t = evict (suc (length t.entries)) t

-- `usize` has 64 bits, so `usize::try_from` of a `u64` succeeds.
unfoldable pub set_max_size : DynamicTable → ℕ → DynamicTable
set_max_size t size =
    evict_to_fit
      record { entries = t.entries; size = t.size; max_size = min size absolute_max_size }

unfoldable pub insert : DynamicTable → Header → DynamicTable
insert t e =
    if ltb t.max_size (entry_size e)
    then record { entries = []; size = 0; max_size = t.max_size }
    else evict_to_fit
        record { entries = e ∷ t.entries; size = t.size + entry_size e; max_size = t.max_size }

unfoldable pub lookup : ℕ → DynamicTable → Result HpackError Header
lookup index t =
    if index == 0
    then err (bad_index 0)
    else if leb index (length static_table)
    then ok_or (get_elem? static_table (index - 1)) (bad_index index)
    else ok_or (get_elem? t.entries (index - length static_table - 1)) (bad_index index)
