-- ===== src/Drf/Extra.antt =====
-- pacsys/drf3/extra.py: the data source behind `<-`.
use pacsys.Prelude.{
  upper, ℕ, Bool, true, false, List, [], ◌∷◌, ◌==◌, if◌then◌else◌, Result, Text, codes,
}
use pacsys.Drf.Property.{find, or_value_error}

-- `DRF_EXTRA`.
pub data Extra : Type 0 where
  ftp livedata logger loggersingle loggerduration srfile sdafile redir mirror : Extra

-- The member's name.
abbrev pub extra_name : Extra → Text
extra_name ftp = codes "FTP"
extra_name livedata = codes "LIVEDATA"
extra_name logger = codes "LOGGER"
extra_name loggersingle = codes "LOGGERSINGLE"
extra_name loggerduration = codes "LOGGERDURATION"
extra_name srfile = codes "SRFILE"
extra_name sdafile = codes "SDAFILE"
extra_name redir = codes "REDIR"
extra_name mirror = codes "MIRROR"

-- `DRF_EXTRA_NAMES`.
abbrev extra_names : List (Text × Extra)
extra_names =
    (extra_name ftp, ftp)
    ∷ (extra_name livedata, livedata)
    ∷ (extra_name logger, logger)
    ∷ (extra_name loggersingle, loggersingle)
    ∷ (extra_name loggerduration, loggerduration)
    ∷ (extra_name srfile, srfile)
    ∷ (extra_name sdafile, sdafile)
    ∷ (extra_name redir, redir)
    ∷ (extra_name mirror, mirror)
    ∷ []

-- `request.extra in HISTORICAL_EXTRAS`.
abbrev pub is_historical : Extra → Bool
is_historical logger = true
is_historical loggersingle = true
is_historical loggerduration = true
is_historical _ = false

-- `s.split(sep)[0]`: what stands before the first separator, or all.
unfoldable before : ℕ → Text → Text
before sep [] = []
before sep (c ∷ cs) = if c == sep then [] else c ∷ before sep cs

-- `parse_extra`.
unfoldable pub parse_extra : Text → Result Extra
unfolding upper before find
parse_extra raw = or_value_error (find (before b'[' (before b':' (upper raw))) extra_names)
