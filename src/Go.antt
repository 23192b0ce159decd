-- ===== src/Go.antt =====
-- plugins/jequi_go/src/lib.rs. `L` is a loaded library (`libloading`); `open_library` loads one, and
-- `handle` and `handle_proxy` call its functions `HandleRequest` and `HandleProxyRequest`, with a
-- panic where it has none. The second gives a text, or a null pointer.
use jequi.Prelude.{Option, none, some, Bytes, Result, ok, ◌>>=◌, unwrap_option}
use jequi.Message.Hijack.{PostRequestHandler, continue}
use jequi.Message.Request.{Request}
use jequi.Message.Response.{Response}
use jequi.Proxy.Config.{RequestProxyHandler}

pub record Config (L : Type 0) : Type 0 where
  pub go_library_path : Option Bytes
  pub lib : Option L

module _ {M L : Type 0} (open_library : Bytes → Option L)
    (handle : L → Request M → Response M → Result (Request M × Response M))
    (handle_proxy : L
      → Request M
      → Response M
      → Result (Request M × Response M × Option Bytes)) where
  unfoldable pub handle_request :
      (H : Type 0)
      → Config L
      → Request M
      → Response M
      → Result (Request M × Response M × PostRequestHandler H)
  handle_request H conf req resp = do
    lib ← unwrap_option conf.lib
    (req', resp') ← handle lib req resp
    ok (req', resp', continue)

  unfoldable pub handle_request_proxy :
      Config L → Request M → Response M → Result (Request M × Response M × Option Bytes)
  handle_request_proxy conf req resp = do lib ← unwrap_option conf.lib; handle_proxy lib req resp

  -- The handler that is added to the proxy's.
  unfoldable pub proxy_handler : Config L → RequestProxyHandler M
  unfolding handle_request_proxy
  proxy_handler conf = record {
    function = some (λ req resp. do
      (req', resp', answer) ← handle_request_proxy conf req resp
      ok (req', resp', some answer));
  }

  -- `load` up to the proxy's configuration, for the path of a section that was deserialised.
  unfoldable pub load : Option Bytes → Result (Option (Config L))
  load none = ok none
  load (some path) = do
    lib ← unwrap_option (open_library path)
    ok (some (record { go_library_path = some path; lib = some lib }))
