-- ===== src/Telemetry/Report.antt =====
-- api.go, `api_update_state`: the form that one daemon posts to another, read into the state; and
-- api_status.go, `发送洞穴参数`: the form that a caves-only node posts.
pub mod RoundTrip
use dst_nucleus.Prelude.{
  ℕ, zero, suc, ◌+◌, Bool, true, false, ◌&&◌, ◌||◌, Option, none, some, List, [], ◌∷◌, ◌++◌, ltb,
  ◌==◌, if◌then◌else◌, Bytes, codes, length, equal, not,
}
use dst_nucleus.Prelude.Decimal.{ℤ, pos, append_uint, parse_uint, parse_int}
use dst_nucleus.Telemetry.GameState.{GameState, u32_mod, unknown, unknown_temp}

-- `解析API无符号整型`: the unknown value on every error.
unfoldable pub parse_api_uint : Bytes → ℕ
parse_api_uint p = elim (parse_uint u32_mod p) [ none ↦ unknown | some n ↦ n ]

-- `解析API有符号整型`.
unfoldable pub parse_api_int : Bytes → ℤ
parse_api_int p = elim (parse_int 2147483648 p) [ none ↦ pos unknown_temp | some z ↦ z ]

-- `val[0] == '1' || val[0] == 't' || val[0] == 'T'`, with the length test.
unfoldable pub is_truthy : Bytes → Bool
is_truthy [] = false
is_truthy (c ∷ cs) = c == b'1' || c == b't' || c == b'T'

-- The keys of the switch.
pub data Key : Type 0 where
  players cycles season phase rem_days temp is_raining is_snowing alter_awake moon_phase : Key
  nightmare deerclops bearger moose dragonfly beequeen klaus toadstool fuelweaver : Key
  malbatross lordfruitfly antlion unknown_key : Key

-- The switch on the key's text, as a table that is searched from its head.
abbrev table : List (Bytes × Key)
table =
    (codes "players", Key.players)
    ∷ (codes "cycles", Key.cycles)
    ∷ (codes "season", Key.season)
    ∷ (codes "phase", Key.phase)
    ∷ (codes "rem_days", Key.rem_days)
    ∷ (codes "temp", Key.temp)
    ∷ (codes "is_raining", Key.is_raining)
    ∷ (codes "is_snowing", Key.is_snowing)
    ∷ (codes "alter_awake", Key.alter_awake)
    ∷ (codes "moon_phase", Key.moon_phase)
    ∷ (codes "nightmare", Key.nightmare)
    ∷ (codes "deerclops", Key.deerclops)
    ∷ (codes "bearger", Key.bearger)
    ∷ (codes "moose", Key.moose)
    ∷ (codes "dragonfly", Key.dragonfly)
    ∷ (codes "beequeen", Key.beequeen)
    ∷ (codes "klaus", Key.klaus)
    ∷ (codes "toadstool", Key.toadstool)
    ∷ (codes "fuelweaver", Key.fuelweaver)
    ∷ (codes "malbatross", Key.malbatross)
    ∷ (codes "lordfruitfly", Key.lordfruitfly)
    ∷ (codes "antlion", Key.antlion)
    ∷ []

find_key : List (Bytes × Key) → Bytes → Key
find_key [] k = Key.unknown_key
find_key ((name, key) ∷ rest) k = if equal k name then key else find_key rest k

unfoldable pub key_of : Bytes → Key
unfolding find_key
key_of = find_key table

-- The stores behind each `case`.
unfoldable pub store_key : GameState → Key → Bytes → GameState
unfolding parse_api_uint parse_api_int is_truthy
store_key s Key.players val = record s { online_players = parse_api_uint val }
store_key s Key.cycles val = record s { world_days = parse_api_uint val }
store_key s Key.season val = record s { curr_season = parse_api_uint val }
store_key s Key.phase val = record s { day_phase = parse_api_uint val }
store_key s Key.rem_days val = record s { season_days_left = parse_api_uint val }
store_key s Key.temp val = record s { abs_temp = parse_api_int val }
store_key s Key.is_raining val = record s { is_raining = is_truthy val }
store_key s Key.is_snowing val = record s { is_snowing = is_truthy val }
store_key s Key.alter_awake val = record s { celestial_wake = is_truthy val }
store_key s Key.moon_phase val = record s { moon_state = parse_api_uint val }
store_key s Key.nightmare val = record s { nightmare_state = parse_api_uint val }
store_key s Key.deerclops val = record s { deerclops_timer = parse_api_uint val }
store_key s Key.bearger val = record s { bearger_timer = parse_api_uint val }
store_key s Key.moose val = record s { moose_goose_timer = parse_api_uint val }
store_key s Key.dragonfly val = record s { dragonfly_timer = parse_api_uint val }
store_key s Key.beequeen val = record s { bee_queen_timer = parse_api_uint val }
store_key s Key.klaus val = record s { klaus_timer = parse_api_uint val }
store_key s Key.toadstool val = record s { toadstool_timer = parse_api_uint val }
store_key s Key.fuelweaver val = record s { fuelweaver_timer = parse_api_uint val }
store_key s Key.malbatross val = record s { malbatross_timer = parse_api_uint val }
store_key s Key.lordfruitfly val = record s { fruit_fly_lord_timer = parse_api_uint val }
store_key s Key.antlion val = record s { antlion_stomp_min_timer = parse_api_uint val }
store_key s Key.unknown_key val = s

-- The scan for `=`: the key, and the suffix behind the sign; `none` when the input ends first.
unfoldable pub split_key : Bytes → Option (Bytes × Bytes)
split_key [] = none
split_key (c ∷ cs) =
    if c == b'='
    then some ([], cs)
    else elim (split_key cs) [ none ↦ none | some (k, rest) ↦ some (c ∷ k, rest) ]

abbrev is_separator : ℕ → Bool
is_separator c = c == b'&' || c == b';' || c == b'\n'

-- The scan for a separator: the value, and the suffix behind the separator.
unfoldable pub split_val : Bytes → Bytes × Bytes
split_val [] = ([], [])
split_val (c ∷ cs) =
    if is_separator c then ([], cs) else (let (v, rest) = split_val cs in (c ∷ v, rest))

-- A pair with an empty half is passed over.
store_pair : GameState → Bytes → Bytes → GameState
store_pair s [] val = s
store_pair s (k ∷ ks) [] = s
store_pair s (k ∷ ks) (v ∷ vs) = store_key s (key_of (k ∷ ks)) (v ∷ vs)

-- The loop over the body, on fuel; a round takes at least one byte.
store_form : ℕ → GameState → Bytes → GameState
unfolding split_key split_val store_pair
store_form zero s body = s
store_form (suc n) s body = elim (split_key body) [
  | none ↦ s
  | some (key, rest) ↦ store_form n (store_pair s key (split_val rest).0) (split_val rest).1
]

-- The answer of the handler.
pub data Response : Type 0 where
  success200 post405 empty400 too_large413 : Response

-- The size of the pooled buffer.
abbrev pub buffer_size : ℕ
buffer_size = 10240

-- The handler. `body` is what the reader delivers before it ends, and `clean` says that it ends by
-- EOF and not by an error; a full buffer takes nothing more, and no error then.
unfoldable pub api_update_state : Bool → Bool → GameState → Bytes → GameState × Response
unfolding store_form key_of store_key
api_update_state is_post clean s body =
    if is_post
    then (if ltb buffer_size (length body) || (length body == buffer_size && not clean)
        then (s, too_large413)
        else if length body == 0
        then (s, empty400)
        else (store_form (length body) s body, success200))
    else (s, post405)

-- `发送洞穴参数`: the body that is posted; nothing is sent to an empty address.
unfoldable pub caves_telemetry : Bytes → ℕ → ℕ → Option Bytes
caves_telemetry [] toad fw = none
caves_telemetry (u ∷ url) toad fw =
    some (codes "toadstool=" ++ (append_uint toad ++ (codes "&fuelweaver=" ++ append_uint fw)))
