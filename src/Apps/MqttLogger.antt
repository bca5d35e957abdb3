-- ===== src/Apps/MqttLogger.antt =====
-- images/spin-mqtt-message-logger/src/lib.rs, on the lines that have been printed. The formatted time
-- and the text of the message are chrono's and `String::from_utf8_lossy`'s.
use containerd_shim_spin.Prelude.{String, ◌<>◌, List, [], ◌∷◌, ◌++◌}
use containerd_shim_spin.Oci.{Bytes}
use containerd_shim_spin.Apps.Sdk.{returned, Handler}

-- `{:?}` of a text, and the two functions above.
pub record Formats : Type 0 where
  pub debug_text : String → String
  pub from_utf8_lossy : Bytes → String

unfoldable pub handle_message : Formats → String → Bytes → String → Handler (List String) Unit
handle_message F formatted_time message topic lines = (
  returned tt,
  lines
      ++ (F.debug_text formatted_time
          <> " Message received by wasm component: '"
          <> F.from_utf8_lossy message
          <> "' on topic '"
          <> topic
          <> "'")
        ∷ [],
)
