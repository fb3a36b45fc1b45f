-- ===== src/Providers/Sts/Handler/Ends.antt =====
-- Reading the response of STS comes to an end.
use aws_c_auth.Xml.Traverse.Fuel.{Ends}
