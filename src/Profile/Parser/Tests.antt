-- ===== src/Profile/Parser/Tests.antt =====
-- Runs of the URI parser on concrete inputs, over decoders that know one address.
use bypath.Base.{String, none, some, [], ◌≡◌, refl, trim_space, has_prefix, ok}
use bypath.Profile.{Link}
use bypath.Profile.Parser.{parse_uri, parse_ssh}
use bypath.Profile.Parser.Interface.{Decoders, Url}
use bypath.Profile.Parser.Links.{ssh_link}
use bypath.Profile.Parser.Good.{Fits, IsFresh}
use bypath.Profile.Parser.Fits.{parse_uri-Fits}

abbrev ssh_url : Url
ssh_url = record {
  scheme = "ssh";
  user = some (record { name = "admin"; secret = none });
  hostname = "h.example";
  port = "";
  path = "";
  query = [];
  fragment = "";
}

abbrev one_address : Decoders
one_address = record {
  parse_url = λ s. some ssh_url;
  std_base64 = λ s. none;
  url_base64 = λ s. none;
  raw_std_base64 = λ s. none;
  raw_url_base64 = λ s. none;
  query_unescape = λ s. s;
  parse_vmess_json = λ s. none;
}

abbrev ssh_uri : String
ssh_uri = " ssh://admin@h.example\n"

abbrev parsed_link : Link
parsed_link = ssh_link "ssh://admin@h.example" ssh_url "h.example"

ssh_run : parse_uri one_address ssh_uri ≡ ok parsed_link
unfolding parse_uri parse_ssh trim_space has_prefix
ssh_run = refl

parse_uri-Fits_example :
    IsFresh (trim_space ssh_uri) parsed_link × Fits (trim_space ssh_uri) parsed_link
parse_uri-Fits_example = parse_uri-Fits one_address ssh_uri ssh_run
