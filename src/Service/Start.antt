-- ===== src/Service/Start.antt =====
-- pkg/server/server.go: `Start`, over what the listener and gRPC answer. The calls that are made are
-- written down; a call of `log.Fatalf` ends the process with a text.
use csi_hostpath.Base.{
  Option, none, some, List, [], ◌∷◌, ◌++◌, Text, text, ok, Exec, pure, fail, ◌>>◌,
}
use csi_hostpath.Service.{service_address}

pub data StartEvent : Type 0 where
  listened : Text → Text → StartEvent
  registered : StartEvent
  served : StartEvent

-- `none` is no error.
pub record Transport : Type 0 where
  pub listen : Text → Text → Option Text
  pub serve : Option Text

abbrev note : StartEvent → Exec (List StartEvent) Text (Unit {0})
note e es = (ok tt, es ++ (e ∷ []))

abbrev fatal : Option Text → Exec (List StartEvent) Text (Unit {0})
fatal none = pure tt
fatal (some e) = fail e

-- `NewGRPCServer` returns no error, so that `Start` never returns early.
unfoldable pub start : Transport → Text → Exec (List StartEvent) Text (Unit {0})
unfolding service_address text
start T port = do
  note (listened (text "tcp") (service_address port))
  fatal (T.listen (text "tcp") (service_address port))
  note registered
  note served
  fatal T.serve
