-- ===== src/Traffic/Sql.antt =====
-- The statements of SQL whose meaning is assumed, written out.
use ntmd.Base.{◌++◌, Text, codes}
use ntmd.Base.Int.{ℤ}
use ntmd.Util.Decimal.{to_string}

abbrev pub create_prefix : Text
create_prefix = codes "CREATE TABLE IF NOT EXISTS \""

abbrev pub insert_prefix : Text
insert_prefix = codes "INSERT INTO \""

abbrev pub select_prefix : Text
select_prefix = codes "select SUM(bytesRx), SUM(bytesTx), SUM(pktRxCount), SUM(pktTxCount) from \""

abbrev pub create_statement : Text → Text
create_statement name =
    create_prefix
    ++ (name
        ++ codes
            "\" (timestamp INT PRIMARY KEY NOT NULL, bytesRx INT DEFAULT 0, bytesTx INT DEFAULT 0, pktRxCount INT DEFAULT 0, pktTxCount INT DEFAULT 0);")

abbrev pub insert_statement : Text → Text
insert_statement name = insert_prefix ++ (name ++ codes "\" VALUES (?, ?, ?, ?, ?);")

abbrev pub since_statement : Text → ℤ → Text
since_statement name first =
    select_prefix ++ (name ++ (codes "\" where timestamp >= " ++ (to_string first ++ codes ";")))

abbrev pub between_statement : Text → ℤ → ℤ → Text
between_statement name first last =
    select_prefix
    ++ (name
        ++ (codes "\" where timestamp >= "
            ++ (to_string first ++ (codes " and timestamp <= " ++ (to_string last ++ codes ";")))))
