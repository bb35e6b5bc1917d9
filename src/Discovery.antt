-- ===== src/Discovery.antt =====
-- src/domain/discovery.ts: the lookup of a tool by its id or slug, for the public and for its owner.
use directory.Common.{
  ℕ, String, Bool, true, false, not, ◌&&◌, Option, none, some, List, [], ◌∷◌, take, if◌then◌else◌,
  codes, ◌≡◌, Bool-cases, inl, inr,
}
use directory.Types.Records.{MemoryTool}
use directory.Store.{Store, get_tool_by_id, get_tool_by_slug}
use directory.Lifecycle.{is_discoverable_status}
use directory.Risk.Evaluate.{is_uuid}

abbrev pub public_only : Bool → Option MemoryTool → Option MemoryTool
public_only include_quarantine none = none
public_only include_quarantine (some t) =
    if not include_quarantine && not (is_discoverable_status t.status) then none else some t

unfoldable pub get_catalog_tool : ℕ → Store → Bool → String → Option MemoryTool
unfolding is_uuid
get_catalog_tool now s include_quarantine id_or_slug = public_only include_quarantine (
    if is_uuid (codes id_or_slug)
    then get_tool_by_id now s id_or_slug
    else get_tool_by_slug now s (codes id_or_slug))

abbrev found_first : Option MemoryTool → List MemoryTool → List MemoryTool
found_first none rest = rest
found_first (some t) rest = t ∷ rest

unfoldable pub collect_tools : ℕ → Store → Bool → List String → List MemoryTool
unfolding get_catalog_tool
collect_tools now s include_quarantine [] = []
collect_tools now s include_quarantine (key ∷ keys) =
    found_first (get_catalog_tool now s include_quarantine key)
      (collect_tools now s include_quarantine keys)

unfoldable pub compare_catalog_tools : ℕ → Store → Bool → List String → List MemoryTool
unfolding collect_tools
compare_catalog_tools now s include_quarantine keys =
    collect_tools now s include_quarantine (take 5 keys)

-- Without quarantine only discoverable tools are found.
pub get_catalog_tool-public :
    (now : ℕ) (s : Store) (id_or_slug : String) (t : MemoryTool)
    → get_catalog_tool now s false id_or_slug ≡ some t
    → is_discoverable_status t.status ≡ true
unfolding get_catalog_tool
get_catalog_tool-public now s id_or_slug t h =
    found
      (if is_uuid (codes id_or_slug)
        then get_tool_by_id now s id_or_slug
        else get_tool_by_slug now s (codes id_or_slug))
      h
  where
    found :
        (o : Option MemoryTool)
        → public_only false o ≡ some t
        → is_discoverable_status t.status ≡ true
    found none e = cc
    found (some u) e = elim (Bool-cases (is_discoverable_status u.status)) [
      | inl d ↦ let k : some u ≡ some t = rw d at e in let same : u ≡ t = cc in rw (← same) d
      | inr d ↦ let k = rw d at e in cc
    ]
