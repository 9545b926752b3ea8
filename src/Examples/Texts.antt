-- ===== src/Examples/Texts.antt =====
-- Tests of what is parsed: paths, headers, keys, addresses and settings.
use image_forge.Prelude.{
  ◌≡◌, refl, some, [], ◌∷◌, codes, text_eq, has_prefix, blank, trim_space, cut, lower, pos,
}
use image_forge.Errors.{ok}
use image_forge.Localstorage.FilePath.{clean, join_path, dir}
use image_forge.Httpapi.Auth.{bearer_token, decode_hex}
use image_forge.Config.{env_int64, backend_from_env}
use image_forge.Config.Programs.{normalize_addr}

cleans : clean (codes "a//b/./../c/") ≡ codes "a/c"
unfolding clean text_eq has_prefix
cleans = refl

climbs : clean (codes "../x/../..") ≡ codes "../.."
unfolding clean text_eq has_prefix
climbs = refl

joins : join_path (codes "/srv") (codes "../etc") ≡ codes "/etc"
unfolding join_path text_eq has_prefix
joins = refl

parent_of : dir (codes "/srv/img/a.png") ≡ codes "/srv/img"
unfolding dir text_eq has_prefix clean
parent_of = refl

carries : bearer_token (codes "bearer  abc ") ≡ ok (codes "abc")
unfolding bearer_token text_eq cut lower trim_space
carries = refl

decodes : decode_hex (codes "0aFf") ≡ some (10 ∷ 255 ∷ [])
unfolding decode_hex
decodes = refl

probes : normalize_addr (codes "0.0.0.0:9090") ≡ codes "127.0.0.1:9090"
unfolding normalize_addr text_eq has_prefix cut trim_space
probes = refl

falls_back : env_int64 (λ key. some (codes "12x")) (codes "IMAGEFORGE_WORKERS") (pos 4) ≡ pos 4
unfolding env_int64
falls_back = refl

lowers : backend_from_env (λ key. some (codes " AWS ")) ≡ codes "aws"
unfolding backend_from_env blank trim_space lower
lowers = refl
