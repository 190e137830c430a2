-- ===== src/Common/Tests.antt =====
-- Contexts and errors, on concrete ones.
use resolution.Prelude.{quote, ◌≡◌, refl}
use resolution.Common.Errors.{plain, invalid_resource_key, message}

bad_key :
    message (invalid_resource_key "a/b/c" (plain "unexpected key format"))
    ≡ "invalid resource key \"a/b/c\": unexpected key format"
unfolding message quote
bad_key = refl
