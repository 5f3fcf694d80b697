-- ===== src/Plugins/Registry.antt =====
-- plugins.go: the plugins that the settings ask for, by their kinds. A plugin is known to the program
-- by the methods that it has; what a constructor starts is not modelled.
use traffic.Base.{
  Bool, true, false, not, ◌&&◌, List, [], ◌∷◌, ◌++◌, Option, none, some, ◌==◌, if◌then◌else◌,
  length,
}
use traffic.Http.Search.{Bytes}
use traffic.Plugins.{extract_limit_options}

-- The types that the constructors return.
pub data Kind : Type 0 where
  tcp_input dubbo_input http_input file_input : Kind
  std_output file_output file_response_output tcp_output kafka_output : Kind

-- A plugin with the first of its options, or a limiter of one with the text of the limit.
pub data Plugin : Type 0 where
  plugin : Kind → Bytes → Plugin
  limiter : Plugin → Bytes → Plugin

-- whether a type has the method `PluginReader`
unfoldable pub kind_reads : Kind → Bool
kind_reads tcp_input = true
kind_reads dubbo_input = true
kind_reads http_input = true
kind_reads file_input = true
kind_reads _ = false

-- `plugin.(message.PluginReader)`: a `Limiter` has the methods `Read` and `Write`
unfoldable pub is_reader : Plugin → Bool
unfolding kind_reads
is_reader (plugin kind path) = kind_reads kind
is_reader (limiter p limit) = false

-- `plugin.(message.PluginWriter)`
unfoldable pub is_writer : Plugin → Bool
unfolding kind_reads
is_writer (plugin kind path) = not (kind_reads kind)
is_writer (limiter p limit) = false

-- `InOutPlugins`
pub record InOutPlugins : Type 0 where
  pub inputs : List Plugin
  pub outputs : List Plugin
  pub every : List Plugin

-- the end of `registerPlugin`, for the plugin that the constructor made
unfoldable pub add_plugin : InOutPlugins → Plugin → InOutPlugins
unfolding is_reader is_writer
add_plugin plugins p = record {
  inputs = if is_reader p then plugins.inputs ++ (p ∷ []) else plugins.inputs;
  outputs = if is_writer p then plugins.outputs ++ (p ∷ []) else plugins.outputs;
  every = plugins.every ++ (p ∷ []);
}

-- the plugin of an option: the limit is taken off, and a limit that is not empty wraps the plugin
unfoldable pub constructed : Kind → Bytes → Plugin
unfolding extract_limit_options
constructed kind options =
    let (path, limit) = extract_limit_options options in
    if length limit == 0 then plugin kind path else limiter (plugin kind path) limit

-- `registerPlugin`, of a constructor without options or with a first one
unfoldable pub register_plugin : Kind → Option Bytes → InOutPlugins → InOutPlugins
unfolding add_plugin constructed
register_plugin kind none plugins = add_plugin plugins (plugin kind [])
register_plugin kind (some options) plugins = add_plugin plugins (constructed kind options)

-- a loop of `InitPlugins`
unfoldable pub register_each : Kind → List Bytes → InOutPlugins → InOutPlugins
unfolding register_plugin
register_each kind [] plugins = plugins
register_each kind (options ∷ more) plugins =
    register_each kind more (register_plugin kind (some options) plugins)

-- The settings that ask for plugins.
pub record PluginSettings : Type 0 where
  pub input_tcp : List Bytes
  pub input_dubbo : List Bytes
  pub input_http : List Bytes
  pub input_file : List Bytes
  pub output_stdout : Bool
  pub output_file : List Bytes
  pub output_response_file : List Bytes
  pub output_tcp : List Bytes
  pub kafka_topic : Bytes
  pub kafka_host : Bytes

-- `InitPlugins`
unfoldable pub init_plugins : PluginSettings → InOutPlugins
unfolding register_each register_plugin
init_plugins s =
    let a : InOutPlugins = record { inputs = []; outputs = []; every = [] } in
    let b = register_each tcp_input s.input_tcp a in
    let c = register_each dubbo_input s.input_dubbo b in
    let d = register_each http_input s.input_http c in
    let e = register_each file_input s.input_file d in
    let f = if s.output_stdout then register_plugin std_output none e else e in
    let g = register_each file_output s.output_file f in
    let h = register_each file_response_output s.output_response_file g in
    let i = register_each tcp_output s.output_tcp h in
    if not (length s.kafka_topic == 0) && not (length s.kafka_host == 0)
    then register_plugin kafka_output (some []) i
    else i
