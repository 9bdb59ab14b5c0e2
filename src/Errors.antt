-- ===== src/Errors.antt =====
-- src/errors.rs: the transport's errors, and their texts.
use libp2p_transport_veilid.Prelude.{◌++◌, Option, none, some}
use libp2p_transport_veilid.Prelude.Strings.{codes}
use libp2p_transport_veilid.External.{Text}

-- `IoError` and `VeilidApiError` wrap an error of another library, which is only its text here.
pub data VeilidError : Type 0 where
  io_error : Text → VeilidError
  veilid_api_error : Text → VeilidError
  callback_not_defined could_not_create_listener key_pair_doesnt_exist : VeilidError
  api_not_defined invalid_multiaddr stream_not_found : VeilidError
  generic : Text → VeilidError

-- `From<VeilidAPIError>`.
unfoldable pub from_veilid_api_error : Text → VeilidError
from_veilid_api_error err = veilid_api_error err

-- `Error::source`: the error that is wrapped.
unfoldable pub source : VeilidError → Option Text
source (io_error err) = some err
source (veilid_api_error err) = some err
source callback_not_defined = none
source could_not_create_listener = none
source key_pair_doesnt_exist = none
source api_not_defined = none
source invalid_multiaddr = none
source stream_not_found = none
source (generic msg) = none

-- `Display::fmt`; `quoted` is the debug format of a string, of the standard library.
unfoldable pub fmt : (quoted : Text → Text) → VeilidError → Text
fmt quoted (io_error err) = codes "IO error: " ++ err
fmt quoted (veilid_api_error err) = codes "Veilid API error: " ++ err
fmt quoted callback_not_defined = codes "Callback is not defined"
fmt quoted could_not_create_listener = codes "Could not create a Libp2p Listener"
fmt quoted key_pair_doesnt_exist = codes "Key pair doesn't not exist"
fmt quoted api_not_defined = codes "VeilidAPI does not exist"
fmt quoted invalid_multiaddr = codes "Multiaddr is not a unix formatted address"
fmt quoted stream_not_found = codes "Multiaddr is not a unix formatted address"
fmt quoted (generic msg) = quoted msg
