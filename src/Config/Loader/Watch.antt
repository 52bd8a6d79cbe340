-- ===== src/Config/Loader/Watch.antt =====
-- internal/config/loader.go: `WatchConfig`, the messages that its goroutine sends and whether it has
-- closed its channels. `to_json` is ToJSON. A turn is what the `select` of the loop meets: a tick, with
-- the world of its load and whether the context ends while a send waits, or the end of the context.
use k8s_operator_cloudflare.Prelude.{
  String, Bool, true, false, Option, none, some, List, [], ◌∷◌, if◌then◌else◌, str_eq,
}
use k8s_operator_cloudflare.Config.Types.{Config}
use k8s_operator_cloudflare.Config.Loader.{
  World, LoadOptions, LoadError, WatchOptions, Result, ok, err, validate_watch_options,
}
use k8s_operator_cloudflare.Config.Loader.Priority.{State, load_with_priority}

pub data Turn (E : Type 0) : Type 0 where
  tick : World E → Bool → Turn E
  cancelled : Turn E

pub data Message (E : Type 0) : Type 0 where
  new_config : Config → Message E
  load_failed : LoadError E → Message E

-- What the goroutine has sent, and whether it has returned, which closes both channels.
pub record Sent (E : Type 0) : Type 0 where
  pub messages : List (Message E)
  pub closed : Bool

-- A tick: a message to send and the last configuration after it, or nothing to send.
pub data Tick (E : Type 0) : Type 0 where
  sends : Message E → Config → Tick E
  quiet : Tick E

-- What WatchConfig returns: for options that are not valid a nil channel and the wrapped error.
pub data Watching (E : Type 0) : Type 0 where
  refused : LoadError E → Watching E
  opened : Sent E → Watching E

unfoldable pub watched_options : WatchOptions → LoadOptions
watched_options o = record {
  file_path = "";
  config_map_name = o.config_map_name;
  secret_name = o.secret_name;
  load_from_env = true;
  validate_config = true;
}

module _ {E : Type 0} where
  abbrev pub also : Message E → Sent E → Sent E
  also m s = record { messages = m ∷ s.messages; closed = s.closed }

  -- `rest` is the loop from the last configuration on.
  abbrev pub after_tick : (Config → Sent E) → Config → Bool → Tick E → Sent E
  after_tick rest last interrupted quiet = rest last
  after_tick rest last true (sends m next) = record { messages = []; closed = true }
  after_tick rest last false (sends m next) = also m (rest next)

  abbrev checked : Option (LoadError E) → Sent E → Watching E
  checked (some e) s = refused e
  checked none s = opened s

module _ {E : Type 0} (to_json : Config → String) where
  unfoldable pub compare_load : Config → Result E State → Tick E
  compare_load last (err e) = sends (load_failed e) last
  compare_load last (ok (c, sources)) =
      if str_eq (to_json last) (to_json c) then quiet else sends (new_config c) c

  unfoldable pub watch_loop : LoadOptions → List (Turn E) → Config → Sent E
  watch_loop o [] last = record { messages = []; closed = false }
  watch_loop o (cancelled ∷ turns) last = record { messages = []; closed = true }
  watch_loop o (tick w interrupted ∷ turns) last =
      after_tick (watch_loop o turns) last interrupted (compare_load last (load_with_priority w o))

  -- The load before the loop; its first message is sent unless the context ends before.
  unfoldable pub first_message : LoadOptions → Bool → List (Turn E) → Result E State → Sent E
  first_message o true turns r = record { messages = []; closed = true }
  first_message o false turns (err e) = record { messages = load_failed e ∷ []; closed = true }
  first_message o false turns (ok (c, sources)) = also (new_config c) (watch_loop o turns c)

  unfoldable pub watch_config : WatchOptions → World E → Bool → List (Turn E) → Watching E
  unfolding first_message watched_options
  watch_config options w interrupted turns =
      let o = watched_options options in
      checked (validate_watch_options options)
        (first_message o interrupted turns (load_with_priority w o))
