-- ===== src/Profile.antt =====
-- internal/profile: links, groups, and the operations on them. The types of profile.go stand here;
-- a child module models each further part of the package.
pub mod Cdn
pub mod Select
pub mod Store
pub mod Parser
pub mod Subscription
pub mod History
mod Tests
use bypath.Base.{ℤ, pos, Bool, false, List, String}

-- `Link`
pub record Link : Type 0 where
  pub remark : String
  pub protocol : String
  pub raw_uri : String
  pub group : String
  pub address : String
  pub port : ℤ
  pub uuid : String
  pub alter_id : ℤ
  pub security : String
  pub network : String
  pub tls : Bool
  pub insecure : Bool
  pub sni : String
  pub path : String
  pub host : String
  pub flow : String
  pub reality_public_key : String
  pub reality_short_id : String
  pub fingerprint : String
  pub public_key : String
  pub private_key : String
  pub endpoint : String
  pub ssh_user : String
  pub ssh_key_path : String
  pub ssh_password : String
  pub https_capable : ℤ
  pub cdn_detected : Bool
  pub chain_proxy : String
  pub listen_port : ℤ

-- the zero value of `Link`
abbrev pub zero_link : Link
zero_link = record {
  remark = "";
  protocol = "";
  raw_uri = "";
  group = "";
  address = "";
  port = pos 0;
  uuid = "";
  alter_id = pos 0;
  security = "";
  network = "";
  tls = false;
  insecure = false;
  sni = "";
  path = "";
  host = "";
  flow = "";
  reality_public_key = "";
  reality_short_id = "";
  fingerprint = "";
  public_key = "";
  private_key = "";
  endpoint = "";
  ssh_user = "";
  ssh_key_path = "";
  ssh_password = "";
  https_capable = pos 0;
  cdn_detected = false;
  chain_proxy = "";
  listen_port = pos 0;
}

-- `Group`; its `Type` is "basic" or "subscription"
pub record Group : Type 0 where
  pub name : String
  pub kind : String
  pub links : List Link
  pub subscriptions : List String

-- `link.Group = name`
abbrev pub regroup : String → Link → Link
regroup name link = record link { group = name }
