-- ===== src/Settings.antt =====
-- settings.go and perfma-replay.go: the settings, and what the program makes of them before it starts
-- to copy. Flags are parsed by the package flag; `strconv.ParseInt` is a parameter.
pub mod Start
use traffic.Base.Encoding.{ℤ, pos, negsuc}
use traffic.Base.Outcome.{Outcome, ok, err, panic, ◌>>=◌}
use traffic.Base.{
  ℕ, suc, ◌*◌, ◌^◌, Bool, true, false, ◌||◌, List, [], ◌∷◌, ◌++◌, Option, none, some, ltb, ◌==◌,
  if◌then◌else◌, length,
}
use traffic.Http.Search.{Bytes, codes}
use traffic.FileInput.{less}
use traffic.Size.{set_size, parse_data_unit}
use traffic.Plugins.Registry.{Plugin, PluginSettings, InOutPlugins, init_plugins}

-- `MultiOption.Set`
unfoldable pub set_option : List Bytes → Bytes → List Bytes
set_option h value = h ++ (value ∷ [])

-- `AppSettings`, with the settings of the plugins and of libpcap; an expression is its text. Nothing sets
-- `outputNull` and the settings of TLS.
pub record AppSettings : Type 0 where
  pub plugin_settings : PluginSettings
  pub biz_protocol : List Bytes
  pub copy_buffer_size : ℤ
  pub size_limit : ℤ
  pub queue_limit : ℤ
  pub append : Bool
  pub flush_interval : ℕ
  pub exit_after : ℕ
  pub track_response : Bool
  pub input_file_loop : Bool
  pub verbose : ℤ
  pub split_output : Bool
  pub tcp_secure : Bool
  pub tcp_stats : Bool
  pub tcp_repeat : ℤ
  pub kafka_use_json : Bool
  pub url_regexps : List Bytes
  pub buffer_size : ℤ
  pub promiscuous : Bool
  pub monitor : Bool
  pub snaplen : Bool

-- the settings before the flags are parsed, as `init` leaves them
abbrev pub defaults : AppSettings
defaults = record {
  plugin_settings = record {
    input_tcp = [];
    input_dubbo = [];
    input_http = [];
    input_file = [];
    output_stdout = false;
    output_file = [];
    output_response_file = [];
    output_tcp = [];
    kafka_topic = [];
    kafka_host = [];
  };
  biz_protocol = [];
  copy_buffer_size = pos 5242880;
  size_limit = pos 33554432;
  queue_limit = pos 25600;
  append = false;
  flush_interval = 1000000000;
  exit_after = 0;
  track_response = false;
  input_file_loop = false;
  verbose = pos 0;
  split_output = false;
  tcp_secure = false;
  tcp_stats = false;
  tcp_repeat = pos 1;
  kafka_use_json = false;
  url_regexps = [];
  buffer_size = pos 0;
  promiscuous = false;
  monitor = false;
  snaplen = false;
}

-- How the start of the program ends without a copy: "Required at least 1 input and 1 output", or
-- `log.Fatal` in the constructor of a plugin.
pub data StartError : Type 0 where
  input_and_output_required constructor_failed : StartError

module _ (parse_int parse_int_any_base : Bytes → ℤ × Bool) where
  -- `checkSettings`; the size of a chunk is parsed in base 10, that of the buffer in any
  unfoldable pub check_settings : {E : Type 0} → AppSettings → Outcome E AppSettings
  unfolding less set_size parse_data_unit
  check_settings s = do
    limit ←
        if less s.size_limit (pos 1)
        then parse_data_unit parse_int (codes "32mb")
        else ok s.size_limit
    let buffer =
        if less s.copy_buffer_size (pos 1)
        then (set_size parse_int_any_base s.copy_buffer_size (codes "5mb")).0
        else s.copy_buffer_size
    ok (record s { size_limit = limit; copy_buffer_size = buffer })

  -- The constructors of the plugins, one after the other, any of which may end the program.
  unfoldable pub construct_each :
      (Plugin → Outcome StartError Plugin) → List Plugin → Outcome StartError (List Plugin)
  construct_each construct [] = ok []
  construct_each construct (p ∷ ps) = do
    q ← construct p
    qs ← construct_each construct ps
    ok (q ∷ qs)

  -- `main` up to the start of the emitter: the settings, the plugins, and the protocol that is
  -- recorded, the first of the option. `parse_flags` is what the flags that are given make of the
  -- settings, and `construct` how the constructor of a plugin ends.
  unfoldable pub start :
      (AppSettings → AppSettings)
      → (Plugin → Outcome StartError Plugin)
      → Outcome StartError (AppSettings × InOutPlugins × Bytes)
  unfolding check_settings init_plugins construct_each
  start parse_flags construct = do
    t ← check_settings (parse_flags (record defaults { snaplen = true }))
    let plugins = init_plugins t.plugin_settings
    constructed ← construct_each construct plugins.every
    if length plugins.inputs == 0 || length plugins.outputs == 0
        then err input_and_output_required
        else elim t.biz_protocol [ [] ↦ panic | p ∷ ps ↦ ok (t, plugins, p) ]
