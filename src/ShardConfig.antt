-- ===== src/ShardConfig.antt =====
-- The shard configuration (src/shardkv1/shardcfg/shardcfg.go): which group serves which shard. The
-- map of groups is a list of pairs; group numbers are natural numbers, and 0 is an unassigned shard.
pub mod Loads
pub mod Balance
pub mod Assign
pub mod Fuel
pub mod Membership
pub mod Departure
use Prim.Native.String.{String}
use text.Mathlib.Text.{◌==◌ as same_text}
use distributed_systems_mit.Base.{
  ℕ, zero, suc, ◌+◌, Bool, true, false, ◌||◌, Option, none, some, List, [], ◌∷◌, map, get_elem?,
  set, replicate, ltb, leb, ◌==◌, if◌then◌else◌, ◌>>=◌,
}

abbrev pub n_shards : ℕ
n_shards = 12

abbrev pub Groups : Type 0
Groups = List (ℕ × List String)

pub record ShardConfig : Type 0 where
  pub num : ℕ
  pub shards : List ℕ
  pub groups : Groups

unfoldable pub make_shard_config : ShardConfig
make_shard_config = record { num = 0; shards = replicate n_shards 0; groups = [] }

-- `cfg.Groups[gid]`
unfoldable pub servers_of : ℕ → Groups → Option (List String)
servers_of gid [] = none
servers_of gid ((g, srvs) ∷ rest) = if g == gid then some srvs else servers_of gid rest

abbrev pub present : Option (List String) → Bool
present none = false
present (some srvs) = true

unfoldable pub has_group : ℕ → Groups → Bool
unfolding servers_of
has_group gid gs = present (servers_of gid gs)

-- `counts[g]`
unfoldable pub count : ℕ → List ℕ → ℕ
count g [] = 0
count g (s ∷ rest) = let others = count g rest in if s == g then suc others else others

-- `slices.Sort` of the group numbers.
pub insert_sorted : ℕ → List ℕ → List ℕ
insert_sorted x [] = x ∷ []
insert_sorted x (y ∷ ys) = if leb x y then x ∷ y ∷ ys else y ∷ insert_sorted x ys

pub sort : List ℕ → List ℕ
unfolding insert_sorted
sort [] = []
sort (x ∷ xs) = insert_sorted x (sort xs)

unfoldable pub sorted_gids : Groups → List ℕ
unfolding sort
sorted_gids gs = sort (map (λ g. g.0) gs)

-- The results of `analyze`, group and load; `none` is the initial -1.
pub record Analysis : Type 0 where
  pub most : Option (ℕ × ℕ)
  pub least : Option ℕ
  pub least_n : ℕ

abbrev more_than : ℕ → Option (ℕ × ℕ) → Bool
more_than n none = true
more_than n (some (g, m)) = ltb m n

-- The body of the loop over the groups.
unfoldable pub consider : List ℕ → ℕ → Analysis → Analysis
consider shards g a =
    let n = count g shards in
    let a' = if ltb n a.least_n then record a { least = some g; least_n = n } else a in
    if more_than n a.most then record a' { most = some (g, n) } else a'

unfoldable pub analyze_from : List ℕ → List ℕ → Analysis → Analysis
unfolding consider
analyze_from shards [] a = a
analyze_from shards (g ∷ gs) a = analyze_from shards gs (consider shards g a)

abbrev pub nothing_yet : Analysis
nothing_yet = record { most = none; least = none; least_n = 257 }

unfoldable pub analyze : ShardConfig → Analysis
unfolding analyze_from
analyze c = analyze_from c.shards (sorted_gids c.groups) nothing_yet

unfoldable pub least : ShardConfig → Option ℕ
unfolding analyze
least c = (analyze c).least

-- The second loop of `Rebalance`, over the shards as they were: `s` is the index. With a group in
-- the configuration `least` finds one, so the write of -1 for `none` does not happen.
unfoldable pub assign_unassigned : ShardConfig → ℕ → List ℕ → ShardConfig
assign_unassigned c s [] = c
assign_unassigned c s (g ∷ rest) =
    let placed : ShardConfig = elim (least c) [
      | none ↦ c
      | some lg ↦ record c { shards = set c.shards s lg }
    ] in
    assign_unassigned (if has_group g c.groups then c else placed) (suc s) rest

-- Moves the first shard of `mg` to `lg`.
unfoldable pub move_shard : ℕ → ℕ → List ℕ → List ℕ
move_shard mg lg [] = []
move_shard mg lg (s ∷ rest) = if s == mg then lg ∷ rest else s ∷ move_shard mg lg rest

-- The body of the last loop from the analysis on: `none` ends the loop. A group that is missing is
-- -1 with load -1 or 257, and ends it too.
abbrev pub round_of : ShardConfig → Option (ℕ × ℕ) → Option ℕ → ℕ → Option ShardConfig
round_of c (some (mg, mn)) (some lg) ln =
    if ltb mn (ln + 2) then none else some (record c { shards = move_shard mg lg c.shards })
round_of c _ _ ln = none

unfoldable pub round : ShardConfig → Option ShardConfig
round c = let a = analyze c in round_of c a.most a.least a.least_n

-- The last loop, on fuel; `none` means that the fuel ran out.
unfoldable pub move_shards : ℕ → ShardConfig → Option ShardConfig
move_shards zero c = none
move_shards (suc fuel) c = elim (round c) [ none ↦ some c | some c' ↦ move_shards fuel c' ]

abbrev pub no_groups : Groups → Bool
no_groups [] = true
no_groups (g ∷ gs) = false

unfoldable pub rebalance : ℕ → ShardConfig → Option ShardConfig
rebalance fuel c =
    if no_groups c.groups
    then some (record c { shards = map (λ s. 0) c.shards })
    else move_shards fuel (assign_unassigned c 0 c.shards)

unfoldable pub gid_servers : ShardConfig → ℕ → Option (ℕ × Option (List String))
gid_servers c sh = elim (get_elem? c.shards sh) [
  | none ↦ none
  | some gid ↦ some (gid, servers_of gid c.groups)
]

unfoldable pub is_member : List ℕ → ℕ → Bool
is_member [] gid = false
is_member (g ∷ rest) gid = let later = is_member rest gid in if g == gid then true else later

abbrev serves : List String → String → Bool
serves [] server = false
serves (s ∷ rest) server =
    let later = serves rest server in if same_text s server then true else later

-- Is one of the servers in the list?
abbrev share : List String → List String → Bool
share [] servers = false
share (s ∷ rest) servers =
    let later = share rest servers in if serves servers s then true else later

-- Is one of the servers in a group?
unfoldable pub server_taken : List String → Groups → Bool
server_taken servers [] = false
server_taken servers ((g, srvs) ∷ rest) =
    let later = server_taken servers rest in if share srvs servers then true else later

-- The loop of `Join`, over the new groups in the order of Go's iteration. `none` is `log.Fatalf`.
-- A group that is there already ends it with false, and what was added before stays.
unfoldable pub join_loop : ShardConfig → Groups → Bool → Option (ShardConfig × Bool)
unfolding has_group server_taken
join_loop c [] changed = if changed then some (record c { num = c.num + 1 }, true) else none
join_loop c ((gid, servers) ∷ rest) changed =
    let joined = join_loop (record c { groups = (gid, servers) ∷ c.groups }) rest true in
    if has_group gid c.groups
    then some (c, false)
    else if server_taken servers c.groups
    then none
    else joined

unfoldable pub join : ShardConfig → Groups → Option (ShardConfig × Bool)
join c servers = join_loop c servers false

-- `delete(cfg.Groups, gid)`
unfoldable pub remove_group : ℕ → Groups → Groups
remove_group gid [] = []
remove_group gid ((g, srvs) ∷ rest) =
    let others = remove_group gid rest in if g == gid then others else (g, srvs) ∷ others

unfoldable pub leave_loop : ShardConfig → List ℕ → Bool → Option (ShardConfig × Bool)
unfolding has_group remove_group
leave_loop c [] changed = if changed then some (record c { num = c.num + 1 }, true) else none
leave_loop c (gid ∷ rest) changed =
    let left = leave_loop (record c { groups = remove_group gid c.groups }) rest true in
    if has_group gid c.groups then left else some (c, false)

unfoldable pub leave : ShardConfig → List ℕ → Option (ShardConfig × Bool)
leave c gids = leave_loop c gids false

-- `JoinBalance` and `LeaveBalance` after their first half.
abbrev balanced : ℕ → Option (ShardConfig × Bool) → Option (ShardConfig × Bool)
balanced fuel none = none
balanced fuel (some (c, false)) = some (c, false)
balanced fuel (some (c, true)) = do c' ← rebalance fuel c; some (c', true)

unfoldable pub join_balance : ℕ → ShardConfig → Groups → Option (ShardConfig × Bool)
join_balance fuel c servers = balanced fuel (join c servers)

unfoldable pub leave_balance : ℕ → ShardConfig → List ℕ → Option (ShardConfig × Bool)
leave_balance fuel c gids = balanced fuel (leave c gids)
