-- ===== src/Proxy/Config.antt =====
-- The configuration of the proxy plugin, and its interface to other plugins.
use jequi.Prelude.{Option, none, some, List, [], ◌∷◌, ◌++◌, if◌then◌else◌, Bytes, codes, Result}
use jequi.Text.{starts_with_byte}
use jequi.Text.Lines.{split_text}
use jequi.Message.Request.{Request}
use jequi.Message.Response.{Response}

-- `set_request_uri`, for the text of the C string.
unfoldable pub set_request_uri : {M : Type 0} → Request M → Bytes → Request M
set_request_uri req value = record req {
  uri = record { text = if starts_with_byte b'/' value then value else b'/' ∷ value };
}

pub data ProxyAddress : Type 0 where
  address : Bytes → ProxyAddress
  addresses : List Bytes → ProxyAddress

-- `RequestProxyHandlerFn`: a handler changes the request and the response, and gives no future, or
-- one that ends with an address or without.
abbrev pub RequestProxyHandlerFn : Type 0 → Type 0
RequestProxyHandlerFn M =
    Request M → Response M → Result (Request M × Response M × Option (Option Bytes))

pub record RequestProxyHandler (M : Type 0) : Type 0 where
  pub function : Option (RequestProxyHandlerFn M)

pub record Config (M : Type 0) : Type 0 where
  pub proxy_address : Option ProxyAddress
  pub proxy_handlers : Option (List (RequestProxyHandler M))

unfoldable pub new : {M : Type 0} → Config M
new = record { proxy_address = none; proxy_handlers = none }

module _ {M : Type 0} where
  unfoldable pub add_proxy_handler : Config M → RequestProxyHandler M → Config M
  add_proxy_handler conf handler = elim conf.proxy_handlers [
    | none ↦ record conf { proxy_handlers = some (handler ∷ []) }
    | some handlers ↦ record conf { proxy_handlers = some (handlers ++ (handler ∷ [])) }
  ]

  -- `load`, after the section was deserialised: configurations are compared by their addresses, and
  -- the default one has none.
  unfoldable pub load : Config M → Option (Config M)
  load conf = elim conf.proxy_address [ none ↦ none | some _ ↦ some conf ]

-- The address and the scheme: `https` if the text has none.
unfoldable pub split_address : Bytes → Bytes × Bytes
unfolding split_text
split_address text = elim (split_text (codes "://") text) [
  | none ↦ (text, codes "https")
  | some (scheme, rest) ↦ (rest, scheme)
]
