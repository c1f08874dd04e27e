-- ===== src/Profile/Parser/Interface.antt =====
-- What internal/profile/parser.go uses of Go's `net/url`, `encoding/base64` and `encoding/json`.
use bypath.Base.{ℤ, String, string_eq, Option, none, some, Dict, lookup}

-- a JSON value under `interface{}`: a number (rounded toward zero by `int`), a text, another value
pub data Json : Type 0 where
  number : ℤ → Json
  quoted : String → Json
  other : Json

-- the fields of the vmess object that the parser reads
pub record Vmess : Type 0 where
  pub ps : String
  pub add : String
  pub port : Json
  pub id : String
  pub aid : Json
  pub scy : String
  pub net : String
  pub host : String
  pub path : String
  pub tls : String
  pub sni : String

-- `url.Userinfo`
pub record User : Type 0 where
  pub name : String
  pub secret : Option String

-- `url.URL`, as its methods show it; `query` has the first value of each parameter
pub record Url : Type 0 where
  pub scheme : String
  pub user : Option User
  pub hostname : String
  pub port : String
  pub path : String
  pub query : Dict String
  pub fragment : String

-- `u.User.Username()`, which is empty for a nil `User`
abbrev pub username : Url → String
username u = elim u.user [ none ↦ "" | some who ↦ who.name ]

abbrev pub secret_of : User → String
secret_of who = elim who.secret [ none ↦ "" | some s ↦ s ]

-- `pw, _ := u.User.Password()`
abbrev pub password : Url → String
password u = elim u.user [ none ↦ "" | some who ↦ secret_of who ]

-- `params.Get(key)`
abbrev pub query_get : Url → String → String
query_get u key = elim (lookup key u.query) [ none ↦ "" | some s ↦ s ]

-- The decoders; `none` stands for their error. `query_unescape` is `s, _ = url.QueryUnescape(s)`.
pub record Decoders : Type 0 where
  pub parse_url : String → Option Url
  pub std_base64 : String → Option String
  pub url_base64 : String → Option String
  pub raw_std_base64 : String → Option String
  pub raw_url_base64 : String → Option String
  pub query_unescape : String → String
  pub parse_vmess_json : String → Option Vmess

pub data ParseError : Type 0 where
  vmess_base64 vmess_json invalid_uri ss_base64 ss_format ss_server missing_host : ParseError
  not_a_proxy unsupported : ParseError
