-- ===== src/Account/HandleRules/Reserved/NamesA.antt =====
-- src/account/handle/reserved.rs: the names from `10downingstreet` to `clients`.
use manapds.Prelude.{Str, List, [], ◌∷◌}
use manapds.Prelude.Bytes.{codes}

unfoldable pub names_a : List Str
names_a =
    codes "10downingstreet"
    ∷ codes "10ronaldinho"
    ∷ codes "3gerardpique"
    ∷ codes "about"
    ∷ codes "abuse"
    ∷ codes "access"
    ∷ codes "account"
    ∷ codes "accounts"
    ∷ codes "aclu"
    ∷ codes "acme"
    ∷ codes "activate"
    ∷ codes "activities"
    ∷ codes "activity"
    ∷ codes "ad"
    ∷ codes "add"
    ∷ codes "address"
    ∷ codes "adele"
    ∷ codes "adm"
    ∷ codes "admanager"
    ∷ codes "admin"
    ∷ codes "administration"
    ∷ codes "administrator"
    ∷ codes "administrators"
    ∷ codes "admins"
    ∷ codes "ads"
    ∷ codes "adsense"
    ∷ codes "adult"
    ∷ codes "advertising"
    ∷ codes "adwords"
    ∷ codes "affiliate"
    ∷ codes "affiliatepage"
    ∷ codes "affiliates"
    ∷ codes "afp"
    ∷ codes "ajax"
    ∷ codes "akiko_lawson"
    ∷ codes "akshaykumar"
    ∷ codes "aliaa08"
    ∷ codes "aliciakeys"
    ∷ codes "all"
    ∷ codes "alpha"
    ∷ codes "amitshah"
    ∷ codes "analysis"
    ∷ codes "analytics"
    ∷ codes "andresiniesta8"
    ∷ codes "android"
    ∷ codes "anon"
    ∷ codes "anonymous"
    ∷ codes "answer"
    ∷ codes "answers"
    ∷ codes "anushkasharma"
    ∷ codes "aoc"
    ∷ codes "ap"
    ∷ codes "api"
    ∷ codes "apis"
    ∷ codes "app"
    ∷ codes "appengine"
    ∷ codes "appnews"
    ∷ codes "apps"
    ∷ codes "archive"
    ∷ codes "archives"
    ∷ codes "arianagrande"
    ∷ codes "ariyoshihiroiki"
    ∷ codes "arrahman"
    ∷ codes "article"
    ∷ codes "arvindkejriwal"
    ∷ codes "asahi"
    ∷ codes "asdf"
    ∷ codes "asset"
    ∷ codes "assets"
    ∷ codes "at"
    ∷ codes "atp"
    ∷ codes "auth"
    ∷ codes "authentication"
    ∷ codes "avatar"
    ∷ codes "avrillavigne"
    ∷ codes "backup"
    ∷ codes "bank"
    ∷ codes "banner"
    ∷ codes "banners"
    ∷ codes "barackobama"
    ∷ codes "base"
    ∷ codes "bbcbreaking"
    ∷ codes "bbcworld"
    ∷ codes "beginners"
    ∷ codes "beingsalmankhan"
    ∷ codes "beta"
    ∷ codes "beyonce"
    ∷ codes "billgates"
    ∷ codes "billieeilish"
    ∷ codes "billing"
    ∷ codes "bin"
    ∷ codes "binaries"
    ∷ codes "binary"
    ∷ codes "blackberry"
    ∷ codes "blog"
    ∷ codes "blogs"
    ∷ codes "blogsearch"
    ∷ codes "bluesky"
    ∷ codes "board"
    ∷ codes "book"
    ∷ codes "bookmark"
    ∷ codes "bookmarks"
    ∷ codes "books"
    ∷ codes "bot"
    ∷ codes "bots"
    ∷ codes "brasildefato"
    ∷ codes "britneyspears"
    ∷ codes "brunomars"
    ∷ codes "bsky"
    ∷ codes "bts_bighit"
    ∷ codes "bts_twt"
    ∷ codes "bug"
    ∷ codes "bugs"
    ∷ codes "business"
    ∷ codes "buy"
    ∷ codes "buzz"
    ∷ codes "cache"
    ∷ codes "calendar"
    ∷ codes "call"
    ∷ codes "campaign"
    ∷ codes "cancel"
    ∷ codes "captcha"
    ∷ codes "career"
    ∷ codes "careers"
    ∷ codes "cart"
    ∷ codes "carterjwm"
    ∷ codes "catalog"
    ∷ codes "catalogs"
    ∷ codes "categories"
    ∷ codes "category"
    ∷ codes "cdn"
    ∷ codes "cgi"
    ∷ codes "cgi-bin"
    ∷ codes "championsleague"
    ∷ codes "changelog"
    ∷ codes "chart"
    ∷ codes "charts"
    ∷ codes "chat"
    ∷ codes "check"
    ∷ codes "checked"
    ∷ codes "checking"
    ∷ codes "checkout"
    ∷ codes "chrisbrown"
    ∷ codes "claudialeitte"
    ∷ codes "client"
    ∷ codes "cliente"
    ∷ codes "clients"
    ∷ []
