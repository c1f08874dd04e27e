-- ===== src/Api/Tests.antt =====
-- Runs of the token check on concrete inputs.
use bypath.Base.{◌≡◌, ◌↔◌, refl, cut_first}
use bypath.Api.Auth.{Request, middleware, served, Shows, equal_fold, middleware_iff}

abbrev bearer_request : Request
bearer_request = record { authorization = "bearer s3cret"; api_key = "other" }

bearer_run : middleware "s3cret" bearer_request ≡ served
unfolding middleware equal_fold cut_first
bearer_run = refl

middleware_iff_example :
    (middleware "s3cret" bearer_request ≡ served) ↔ Shows "s3cret" bearer_request
middleware_iff_example = middleware_iff "s3cret" bearer_request
