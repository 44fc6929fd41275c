-- ===== src/Socket/Url.antt =====
-- frontend/src/hooks/useThreatSocket.ts: the address that the socket connects to.
-- `encodeURIComponent` is a parameter.
use threat_lens.Base.{
  Bool, Option, Text, [], codes, if◌then◌else◌, none, or_default, some, text_eq, text_or, ◌++◌,
  ◌||◌, ◌∷◌,
}

-- The parts of `window.location` that are read; `host` is the host name with its port.
pub record Location : Type 0 where
  pub protocol : Text
  pub hostname : Text
  pub host : Text

-- `sessionStorage.getItem(…) || localStorage.getItem(…)`: an empty value counts as absent.
abbrev pub stored_token : Option Text → Option Text → Text
stored_token session local = text_or (or_default session []) (or_default local [])

abbrev pub is_local : Location → Bool
is_local loc = text_eq loc.hostname (codes "localhost") || text_eq loc.hostname (codes "127.0.0.1")

module _ (encode : Text → Text) where
  abbrev pub token_query : Text → Text
  token_query [] = []
  token_query (c ∷ token) = codes "?token=" ++ encode (c ∷ token)

  abbrev pub ws_protocol : Location → Text
  ws_protocol loc = if text_eq loc.protocol (codes "https:") then codes "wss:" else codes "ws:"

  -- `none` is an environment without a `window`.
  unfoldable pub default_url : Option Location → (session local : Option Text) → Text
  unfolding text_eq
  default_url none session local = codes "ws://localhost:8000/ws/threats"
  default_url (some loc) session local =
      let query = token_query (stored_token session local) in
      if is_local loc
      then ws_protocol loc ++ (codes "//" ++ (loc.hostname ++ (codes ":8000/ws/threats" ++ query)))
      else ws_protocol loc ++ (codes "//" ++ (loc.host ++ (codes "/ws/threats" ++ query)))

  -- `url || defaultUrl`
  unfoldable pub target_url : Option Text → Option Location → (session local : Option Text) → Text
  unfolding default_url
  target_url url loc session local = text_or (or_default url []) (default_url loc session local)
