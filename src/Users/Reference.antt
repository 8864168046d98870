-- ===== src/Users/Reference.antt =====
-- The cards that `user_auth_init` of src/user_auth.c seeds: the fields of the users' schema, and the
-- reference packs of days, countries and currencies.
use picowal.Prelude.{ℕ, List, [], ◌∷◌, codes}
use picowal.Users.Access.{SchemaField}

-- The types are FT_UTF8, FT_BLOB, FT_UINT8 and FT_ARRAY_U16.
abbrev pub user_fields : List SchemaField
user_fields =
    (record { ord = 0; type = 9; maxlen = 31; name = codes "username" })
    ∷ (record { ord = 1; type = 17; maxlen = 32; name = codes "password_hash" })
    ∷ (record { ord = 2; type = 17; maxlen = 16; name = codes "salt" })
    ∷ (record { ord = 3; type = 1; maxlen = 1; name = codes "flags" })
    ∷ (record { ord = 4; type = 1; maxlen = 1; name = codes "fail_count" })
    ∷ (record { ord = 5; type = 16; maxlen = 40; name = codes "readPacks" })
    ∷ (record { ord = 6; type = 16; maxlen = 40; name = codes "writePacks" })
    ∷ (record { ord = 7; type = 16; maxlen = 40; name = codes "deletePacks" })
    ∷ []

-- Of pack 2
abbrev pub days_fields : List SchemaField
days_fields =
    (record { ord = 0; type = 9; maxlen = 12; name = codes "name" })
    ∷ (record { ord = 1; type = 9; maxlen = 3; name = codes "abbr" })
    ∷ []

-- Of pack 3
abbrev pub countries_fields : List SchemaField
countries_fields =
    (record { ord = 0; type = 9; maxlen = 48; name = codes "name" })
    ∷ (record { ord = 1; type = 9; maxlen = 2; name = codes "code" })
    ∷ []

-- Of pack 4
abbrev pub currencies_fields : List SchemaField
currencies_fields =
    (record { ord = 0; type = 9; maxlen = 32; name = codes "name" })
    ∷ (record { ord = 1; type = 9; maxlen = 3; name = codes "code" })
    ∷ []

abbrev pub days : List (List ℕ × List ℕ)
days =
    (codes "Monday", codes "Mon")
    ∷ (codes "Tuesday", codes "Tue")
    ∷ (codes "Wednesday", codes "Wed")
    ∷ (codes "Thursday", codes "Thu")
    ∷ (codes "Friday", codes "Fri")
    ∷ (codes "Saturday", codes "Sat")
    ∷ (codes "Sunday", codes "Sun")
    ∷ []

abbrev pub countries : List (List ℕ × List ℕ)
countries =
    (codes "United Kingdom", codes "GB")
    ∷ (codes "United States", codes "US")
    ∷ (codes "Germany", codes "DE")
    ∷ (codes "France", codes "FR")
    ∷ (codes "Japan", codes "JP")
    ∷ (codes "Canada", codes "CA")
    ∷ (codes "Australia", codes "AU")
    ∷ (codes "Italy", codes "IT")
    ∷ (codes "Spain", codes "ES")
    ∷ (codes "Netherlands", codes "NL")
    ∷ (codes "Switzerland", codes "CH")
    ∷ (codes "Sweden", codes "SE")
    ∷ []

abbrev pub currencies : List (List ℕ × List ℕ)
currencies =
    (codes "British Pound", codes "GBP")
    ∷ (codes "US Dollar", codes "USD")
    ∷ (codes "Euro", codes "EUR")
    ∷ (codes "Japanese Yen", codes "JPY")
    ∷ (codes "Swiss Franc", codes "CHF")
    ∷ (codes "Canadian Dollar", codes "CAD")
    ∷ (codes "Australian Dollar", codes "AUD")
    ∷ (codes "Chinese Yuan", codes "CNY")
    ∷ (codes "Indian Rupee", codes "INR")
    ∷ (codes "Brazilian Real", codes "BRL")
    ∷ (codes "South Korean Won", codes "KRW")
    ∷ (codes "Swedish Krona", codes "SEK")
    ∷ (codes "Norwegian Krone", codes "NOK")
    ∷ (codes "Danish Krone", codes "DKK")
    ∷ (codes "Singapore Dollar", codes "SGD")
    ∷ []
